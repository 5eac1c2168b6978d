-- ===== src/Stubs/Storage.antt =====
-- The storage of thread-local objects.
use native.Mathlib.Decide.{ℕ_discrete}
use native.Mathlib.Nat.{div-add-mod, mod-lt, mul-mod_left}
use micro_ros_demos.Prelude.{
  ℕ, ◌+◌, ◌-◌, ◌*◌, ◌/◌, ◌%◌, ◌^◌, ◌≤◌, ◌<◌, ◌≡◌, ◌≢◌, ◌∙◌, refl, subst, sym, ap, List, [], ◌∷◌,
  arith, ◌⊎◌, inl, inr, ◌==◌, if◌then◌else◌, Bool-cases, true, false, ltb,
}
use micro_ros_demos.Stubs.Mask.{IsAlignment, aligned_up-eq, aligned_up-none}
use micro_ros_demos.Stubs.{EmutlsObject, Emutls, aligned_up, emutls_get_address}

module _ (objects : ℕ → EmutlsObject) where
  -- What the objects asked for need at most, alignment included.
  abbrev pub needed : List ℕ → ℕ
  needed [] = 0
  needed (i ∷ is) = (objects i).size + (objects i).align + needed is

  abbrev pub ask_all : List ℕ → Emutls → Emutls
  ask_all [] s = s
  ask_all (i ∷ is) s = ask_all is (emutls_get_address objects i s).1

  -- The objects with an address lie between `begin` and `emutls_next`, aligned and apart.
  pub record LaidOut (begin : ℕ) (s : Emutls) : Type 0 where
    pub begin_set : 0 < begin
    pub begin_le : begin ≤ s.emutls_next
    pub inside :
        (i : ℕ) → s.ptr i ≢ 0 → (begin ≤ s.ptr i) × (s.ptr i + (objects i).size ≤ s.emutls_next)
    pub aligned : (i : ℕ) → 1 < (objects i).align → s.ptr i % (objects i).align ≡ 0
    pub apart :
        (i j : ℕ)
        → i ≢ j
        → s.ptr i ≢ 0
        → s.ptr j ≢ 0
        → (s.ptr i + (objects i).size ≤ s.ptr j) ⊎ (s.ptr j + (objects j).size ≤ s.ptr i)

module _ (objects : ℕ → EmutlsObject) (alignments : (i : ℕ) → IsAlignment (objects i).align) where
  rounds_up : (x a : ℕ) → 1 < a → (x ≤ (x + a - 1) / a * a) × ((x + a - 1) / a * a < x + a)
  rounds_up x a h =
      let m = mod-lt (x + a - 1) {m = a} (omega arith) in
      let d = div-add-mod (x + a - 1) a in grind (arith, m, d)

  aligned_up-bounds :
      (x i : ℕ)
      → x + (objects i).align < 2 ^ 64
      → (x ≤ aligned_up x (objects i).align)
        × (aligned_up x (objects i).align ≤ x + (objects i).align)
  aligned_up-bounds x i h =
      let a : ℕ = (objects i).align in
      elim (Bool-cases (ltb 1 a)) [
        | inl e ↦
            let large : 1 < a = ground arith in
            let r = rounds_up x a large in
            let w : (x + a - 1) % 2 ^ 64 ≡ x + a - 1 = omega arith in
            rw (aligned_up-eq x a large (alignments i), w) (omega (arith, r))
        | inr e ↦ rw (aligned_up-none x a e) (omega arith)
      ]

  aligned_up-aligned :
      (x i : ℕ) → 1 < (objects i).align → aligned_up x (objects i).align % (objects i).align ≡ 0
  aligned_up-aligned x i h =
      let a : ℕ = (objects i).align in
      rw (aligned_up-eq x a h (alignments i)) (mul-mod_left ((x + a - 1) % 2 ^ 64 / a) a)

  next-after :
      (i : ℕ) (s : Emutls)
      → s.emutls_next + ((objects i).size + (objects i).align) < 2 ^ 64
      → (s.emutls_next ≤ (emutls_get_address objects i s).1.emutls_next)
        × ((emutls_get_address objects i s).1.emutls_next
            ≤ s.emutls_next + ((objects i).size + (objects i).align))
  unfolding emutls_get_address
  next-after i s h = ground (arith, aligned_up-bounds s.emutls_next i (omega arith))

  abbrev placed : ℕ → Emutls → Emutls
  placed i s = record {
    emutls_next = (aligned_up s.emutls_next (objects i).align + (objects i).size) % 2 ^ 64;
    ptr = λ j. if i == j then aligned_up s.emutls_next (objects i).align else s.ptr j;
  }

  asked-new :
      (i : ℕ) (s : Emutls) → (s.ptr i == 0) ≡ true → (emutls_get_address objects i s).1 ≡ placed i s
  unfolding emutls_get_address
  asked-new i s e = rw e refl

  asked-old : (i : ℕ) (s : Emutls) → (s.ptr i == 0) ≡ false → (emutls_get_address objects i s).1 ≡ s
  unfolding emutls_get_address
  asked-old i s e = rw e refl

  -- An object placed at `addr`, behind the others.
  module _ (begin i addr : ℕ) (s : Emutls) (v : LaidOut objects begin s) (unset : s.ptr i ≡ 0)
      (above : s.emutls_next ≤ addr) where
    abbrev behind : Emutls
    behind = record {
      emutls_next = addr + (objects i).size;
      ptr = λ j. if i == j then addr else s.ptr j;
    }

    behind_self : behind.ptr i ≡ addr
    behind_self = ground arith

    behind-other : (j : ℕ) → i ≢ j → behind.ptr j ≡ s.ptr j
    behind-other j ne = ground arith

    behind-same : (j : ℕ) → i ≡ j → behind.ptr j ≡ addr
    behind-same j e = subst (λ m. behind.ptr m ≡ addr) e behind_self

    -- An object placed before lies below `addr`.
    others :
        (j : ℕ) → i ≢ j → behind.ptr j ≢ 0 → (begin ≤ s.ptr j) × (s.ptr j + (objects j).size ≤ addr)
    others j ne set =
        let w = v.inside j (λ z. set (behind-other j ne ∙ z)) in omega (arith, w, above)

    behind-apart :
        (j k : ℕ)
        → j ≢ k
        → behind.ptr j ≢ 0
        → behind.ptr k ≢ 0
        → (behind.ptr j + (objects j).size ≤ behind.ptr k)
          ⊎ (behind.ptr k + (objects k).size ≤ behind.ptr j)
    behind-apart j k ne set_j set_k = elim (ℕ_discrete i j) [
      | yes e ↦
          let nk : i ≢ k = λ f. ne (sym e ∙ f) in
          let w = others k nk set_k in
          rw (behind-same j e, behind-other k nk) (inr (omega (arith, w)))
      | no nj ↦ elim (ℕ_discrete i k) [
        | yes f ↦
            let w = others j nj set_j in
            rw (behind-same k f, behind-other j nj) (inl (omega (arith, w)))
        | no nk ↦
            rw (behind-other j nj, behind-other k nk)
              (v.apart j k ne (λ z. set_j (behind-other j nj ∙ z))
                (λ z. set_k (behind-other k nk ∙ z)))
      ]
    ]

    behind-inside :
        (j : ℕ)
        → behind.ptr j ≢ 0
        → (begin ≤ behind.ptr j) × (behind.ptr j + (objects j).size ≤ addr + (objects i).size)
    behind-inside j set = elim (ℕ_discrete i j) [
      | yes e ↦
          let same : (objects i).size ≡ (objects j).size = ap (λ k. (objects k).size) e in
          rw (behind-same j e) (omega (arith, v.begin_le, above, same))
      | no ne ↦ let w = others j ne set in rw (behind-other j ne) (omega (arith, w))
    ]

    behind-aligned :
        (1 < (objects i).align → addr % (objects i).align ≡ 0)
        → (j : ℕ) → 1 < (objects j).align
        → behind.ptr j % (objects j).align ≡ 0
    behind-aligned a j al = elim (ℕ_discrete i j) [
      | yes e ↦
          rw (behind-same j e)
            (subst (λ k. 1 < (objects k).align → addr % (objects k).align ≡ 0) e a al)
      | no ne ↦ rw (behind-other j ne) (v.aligned j al)
    ]

    behind-LaidOut :
        (1 < (objects i).align → addr % (objects i).align ≡ 0) → LaidOut objects begin behind
    behind-LaidOut a = record {
      begin_set = v.begin_set;
      begin_le = omega (arith, v.begin_le, above);
      inside = behind-inside;
      aligned = behind-aligned a;
      apart = behind-apart;
    }

  no_wrap : (x : ℕ) → x < 2 ^ 64 → x % 2 ^ 64 ≡ x
  no_wrap x h = omega arith

  placed-behind :
      (begin i : ℕ) (s : Emutls) (v : LaidOut objects begin s) (unset : s.ptr i ≡ 0)
      (above : s.emutls_next ≤ aligned_up s.emutls_next (objects i).align)
      → aligned_up s.emutls_next (objects i).align + (objects i).size < 2 ^ 64
      → placed i s ≡ behind begin i (aligned_up s.emutls_next (objects i).align) s v unset above
  placed-behind begin i s v unset above h =
      ap
        (λ n. record {
          emutls_next = n;
          ptr = λ j. if i == j then aligned_up s.emutls_next (objects i).align else s.ptr j;
        })
        (no_wrap (aligned_up s.emutls_next (objects i).align + (objects i).size) h)

  -- One call: the objects stay laid out, and no address that is set changes.
  record Asked (begin i : ℕ) (s t : Emutls) : Type 0 where
    laid_out : LaidOut objects begin t
    grows : t.emutls_next ≤ s.emutls_next + ((objects i).size + (objects i).align)
    keeps : (j : ℕ) → s.ptr j ≢ 0 → t.ptr j ≡ s.ptr j

  placed-Asked :
      (begin i : ℕ) (s : Emutls)
      → LaidOut objects begin s
      → s.ptr i ≡ 0
      → s.emutls_next + ((objects i).size + (objects i).align) < 2 ^ 64
      → Asked begin i s (placed i s)
  placed-Asked begin i s v unset h =
      let addr : ℕ = aligned_up s.emutls_next (objects i).align in
      let (above, below) = aligned_up-bounds s.emutls_next i (omega arith) in
      subst (λ t. Asked begin i s t)
        (sym (placed-behind begin i s v unset above (omega (arith, below))))
        (record {
          laid_out =
              behind-LaidOut begin i addr s v unset above (aligned_up-aligned s.emutls_next i);
          grows = omega (arith, below);
          keeps = λ j set.
              behind-other begin i addr s v unset above j
                (λ e. set (subst (λ k. s.ptr k ≡ 0) e unset));
        })

  get_address-Asked :
      (begin i : ℕ) (s : Emutls)
      → LaidOut objects begin s
      → s.emutls_next + ((objects i).size + (objects i).align) < 2 ^ 64
      → Asked begin i s (emutls_get_address objects i s).1
  get_address-Asked begin i s v h = elim (Bool-cases (s.ptr i == 0)) [
    | inl e ↦ rw (asked-new i s e) (placed-Asked begin i s v (ground arith) h)
    | inr e ↦
        rw (asked-old i s e) (record { laid_out = v; grows = omega arith; keeps = λ j set. refl })
  ]

  -- Let every alignment above 1 be a power of two, and the objects with an address lie behind
  -- `begin`, aligned and without overlap, as at the start, where none has one. After any calls of
  -- `__emutls_get_address` that do not reach the end of the address space they still do, in no
  -- more storage than the sizes and alignments of the objects asked for add up to, and an object
  -- keeps the address that it has.
  pub ask_all_lem :
      (is : List ℕ) (begin : ℕ) (s : Emutls)
      → LaidOut objects begin s
      → s.emutls_next + needed objects is < 2 ^ 64
      → LaidOut objects begin (ask_all objects is s)
        × ((ask_all objects is s).emutls_next ≤ s.emutls_next + needed objects is)
        × ((j : ℕ) → s.ptr j ≢ 0 → (ask_all objects is s).ptr j ≡ s.ptr j)
  ask_all_lem [] begin s v h = (v, omega arith, λ j set. refl)
  ask_all_lem (i ∷ is) begin s v h =
      let one = get_address-Asked begin i s v (omega arith) in
      let (laid_out, grows, keeps) =
        ask_all_lem is begin (emutls_get_address objects i s).1 one.laid_out
          (omega (arith, one.grows)) in
      (
        laid_out,
        omega (arith, grows, one.grows),
        λ j set. keeps j (λ z. set (sym (one.keeps j set) ∙ z)) ∙ one.keeps j set,
      )
