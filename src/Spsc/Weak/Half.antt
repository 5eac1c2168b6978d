-- ===== src/Spsc/Weak/Half.antt =====
-- What one side of the queue knows of the blocks that it may hold. The two sides are alike: for the
-- producer the blocks start at `mine`, the pushed ones, and reach one capacity past the popped ones;
-- for the consumer they start at the popped ones and reach up to the pushed ones.
use micro_ros_demos.Prelude.{
  ℕ, suc, ◌+◌, ◌%◌, ◌^◌, ◌≤◌, ◌<◌, ◌≡◌, ◌≢◌, sym, subst, Bool, true, false, update, arith,
}
use native.Mathlib.Decide.{dec_le, ℕ_discrete}
use micro_ros_demos.Spsc.Weak.{
  View, larger, History, append_store, Side, acquire_fence, relaxed_front, relaxed_back,
  acquire_back, touch,
}

-- `mine` and `yours` count the stores of the two sides, `seen` is the number of the last store of
-- the other side that this one loaded, and `room` is how far the blocks reach past those stores.
pub record Half (accesses : ℕ → ℕ) (side : Side) (own theirs : History)
    (size room mine yours seen : ℕ) (holds : Bool) : Type 0 where
  pub newest : own.newest ≡ mine
  pub values : (k : ℕ) → k ≤ mine → own.value k ≡ k % 2 ^ 64
  pub fenced : (i : ℕ) → side.current.block i ≤ side.pending.block i
  pub heard : (i : ℕ) → (theirs.view seen).block i ≤ side.pending.block i
  pub told : (i : ℕ) → (own.view mine).block i ≤ side.current.block i
  pub covers :
      (k y : ℕ)
      → k ≤ yours
      → mine ≤ y
      → y < k + room
      → accesses (y % size)
        ≤ larger (side.current.block (y % size)) ((theirs.view k).block (y % size))
  pub held : holds ≡ true → accesses (mine % size) ≤ side.current.block (mine % size)

-- A side that has learned more of the blocks.
pub record Grows (old new : Side) : Type 0 where
  pub current : (i : ℕ) → old.current.block i ≤ new.current.block i
  pub pending : (i : ℕ) → old.pending.block i ≤ new.pending.block i
  pub fenced : (i : ℕ) → new.current.block i ≤ new.pending.block i

pub relaxed_front-Grows :
    (k : ℕ) (v : View) (s : Side)
    → ((i : ℕ) → s.current.block i ≤ s.pending.block i)
    → Grows s (relaxed_front k v s)
unfolding relaxed_front
relaxed_front-Grows k v s f = record {
  current = λ i. omega arith;
  pending = λ i. ground arith;
  fenced = λ i. ground (arith, f i);
}

pub relaxed_back-Grows :
    (k : ℕ) (v : View) (s : Side)
    → ((i : ℕ) → s.current.block i ≤ s.pending.block i)
    → Grows s (relaxed_back k v s)
unfolding relaxed_back
relaxed_back-Grows k v s f = record {
  current = λ i. omega arith;
  pending = λ i. ground arith;
  fenced = λ i. ground (arith, f i);
}

pub acquire_back-Grows :
    (k : ℕ) (v : View) (s : Side)
    → ((i : ℕ) → s.current.block i ≤ s.pending.block i)
    → Grows s (acquire_back k v s)
unfolding acquire_back
acquire_back-Grows k v s f = record {
  current = λ i. ground arith;
  pending = λ i. ground arith;
  fenced = λ i. ground (arith, f i);
}

module _ {accesses : ℕ → ℕ} {side : Side} {own theirs : History} {size room mine yours seen : ℕ}
    {holds : Bool} (h : Half accesses side own theirs size room mine yours seen holds) where
  -- a load of the store `k` of the other side
  pub load-Half :
      (side' : Side) (k : ℕ)
      → Grows side side'
      → ((i : ℕ) → (theirs.view k).block i ≤ side'.pending.block i)
      → Half accesses side' own theirs size room mine yours k holds
  load-Half side' k w e = record {
    newest = h.newest;
    values = h.values;
    fenced = w.fenced;
    heard = e;
    told = λ i. omega (arith, h.told i, w.current i);
    covers = λ j y p q r. ground (arith, h.covers j y p q r, w.current (y % size));
    held = λ t. omega (arith, h.held t, w.current (mine % size));
  }

  -- a fence, after a load that saw a block to claim
  pub fence-Half :
      seen ≤ yours
      → mine < seen + room
      → Half accesses (acquire_fence side) own theirs size room mine yours seen true
  unfolding acquire_fence
  fence-Half s l = record {
    newest = h.newest;
    values = h.values;
    fenced = λ i. ground (arith, h.fenced i);
    heard = h.heard;
    told = λ i. ground (arith, h.told i);
    covers = λ j y p q r. ground (arith, h.covers j y p q r);
    held = λ t. ground (arith, h.covers seen mine s (omega arith) l, h.heard (mine % size));
  }

  -- an access to the block that the side holds
  pub touch-Half :
      (n : ℕ)
      → Half
          (update accesses (mine % size) n)
          (touch (mine % size) n side)
          own
          theirs
          size
          room
          mine
          yours
          seen
          holds
  unfolding touch
  touch-Half n = record {
    newest = h.newest;
    values = h.values;
    fenced = λ i. ground (arith, h.fenced i);
    heard = λ i. ground (arith, h.heard i);
    told = λ i. ground (arith, h.told i);
    covers = λ j y p q r. ground (arith, h.covers j y p q r);
    held = λ t. ground (arith, h.held t);
  }

  -- an access of the other side
  pub other-Half :
      (i n : ℕ)
      → ((y : ℕ) → mine ≤ y → y < yours + room → y % size ≢ i)
      → (holds ≡ true → mine % size ≢ i)
      → Half (update accesses i n) side own theirs size room mine yours seen holds
  other-Half i n apart apart' = record {
    newest = h.newest;
    values = h.values;
    fenced = h.fenced;
    heard = h.heard;
    told = h.told;
    covers = λ j y p q r. ground (arith, h.covers j y p q r, apart y q (omega arith));
    held = λ t. ground (arith, h.held t, apart' t);
  }

  -- the side's own release store, which ends its hold of the block
  pub store-Half :
      (side' : Side) (x : ℕ)
      → holds ≡ true
      → x ≡ suc mine % 2 ^ 64
      → ((i : ℕ) → side'.current.block i ≡ side.current.block i)
      → ((i : ℕ) → side'.pending.block i ≡ side.pending.block i)
      → Half accesses side'
          (append_store own x side'.current)
          theirs
          size
          room
          (suc mine)
          yours
          seen
          false
  store-Half side' x t e c p = record {
    newest = omega (arith, h.newest);
    values = λ k l. ground (arith, h.newest, h.values k);
    fenced = λ i. omega (arith, c i, p i, h.fenced i);
    heard = λ i. omega (arith, p i, h.heard i);
    told = λ i. ground (arith, h.newest);
    covers = λ j y p q r. ground (arith, h.covers j y p (omega arith) r, c (y % size));
    held = λ t. cc;
  }

  -- a release store of the other side, which hands over the block after those it handed over before
  pub receive-Half :
      (x : ℕ) (v : View)
      → theirs.newest ≡ yours
      → seen ≤ yours
      → ((i : ℕ) → (theirs.view yours).block i ≤ v.block i)
      → accesses ((yours + room) % size) ≤ v.block ((yours + room) % size)
      → Half accesses side own (append_store theirs x v) size room mine (suc yours) seen holds
  receive-Half x v e s old given = record {
    newest = h.newest;
    values = h.values;
    fenced = h.fenced;
    heard = λ i. ground (arith, h.heard i);
    told = h.told;
    covers = λ j y p q r. elim (dec_le j yours) [
      | yes before ↦ ground (arith, h.covers j y before q r)
      | no now ↦ elim (ℕ_discrete y (yours + room)) [
        | yes last ↦
            ground (arith, subst (λ z. accesses (z % size) ≤ v.block (z % size)) (sym last) given)
        | no inside ↦ ground (arith, h.covers yours y (omega arith) q, old (y % size))
      ]
    ];
    held = h.held;
  }
