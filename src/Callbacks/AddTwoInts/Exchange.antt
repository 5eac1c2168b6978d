-- ===== src/Callbacks/AddTwoInts/Exchange.antt =====
-- The answers of the service, and the operands that it prints.
use mathlib.Core.List.{append_cancel_left}
use micro_ros_demos.Prelude.{
  ◌^◌, ◌≡◌, ◌↔◌, refl, true, [], ◌∷◌, ◌++◌, some, none, arith, Bool-cases, inl, inr,
}
use micro_ros_demos.Prelude.Int.{ℤ, pos, negsuc, ◌+ℤ◌, wrap, Fits, wrap-eq_iff}
use micro_ros_demos.Callbacks.AddTwoInts.{Request, Server, fits_i64, service_callback}

fits_i64-Fits : (x : ℤ) → (fits_i64 x ≡ true) ↔ Fits (2 ^ 63) x
fits_i64-Fits (pos n) = (λ h. ground arith, λ h. ground arith)
fits_i64-Fits (negsuc n) = (λ h. ground arith, λ h. ground arith)

-- If the sum of the operands fits an int64_t, the service answers with it. What it prints are the
-- operands exactly if each of them fits an int. Otherwise the sum overflows.
pub service_callback_lem :
    (req : Request) (s : Server)
    → (Fits (2 ^ 63) (req.a +ℤ req.b)
        → (s' : Server) × (service_callback req s ≡ some s')
          × (s'.sums ≡ s.sums ++ ((req.a +ℤ req.b) ∷ []))
          × ((s'.lines ≡ s.lines ++ ((req.a, req.b) ∷ []))
              ↔ (Fits (2 ^ 31) req.a × Fits (2 ^ 31) req.b)))
      × ((Fits (2 ^ 63) (req.a +ℤ req.b) → ⊥) → service_callback req s ≡ none)
unfolding service_callback
service_callback_lem req s =
    let a = wrap-eq_iff (2 ^ 31) req.a (omega arith) in
    let b = wrap-eq_iff (2 ^ 31) req.b (omega arith) in
    let f = fits_i64-Fits (req.a +ℤ req.b) in
    (
      λ h. (
        record {
          lines = s.lines ++ ((wrap (2 ^ 31) req.a, wrap (2 ^ 31) req.b) ∷ []);
          sums = s.sums ++ ((req.a +ℤ req.b) ∷ []);
        },
        rw (f.1 h) refl,
        refl,
        (
          λ e.
              let pair =
                append_cancel_left s.lines ((wrap (2 ^ 31) req.a, wrap (2 ^ 31) req.b) ∷ [])
                  ((req.a, req.b) ∷ []) e in
              (a.0 (cc pair), b.0 (cc pair)),
          λ k. rw (a.1 k.0, b.1 k.1) refl,
        ),
      ),
      λ no_fit. elim (Bool-cases (fits_i64 (req.a +ℤ req.b))) [
        | inl e ↦ absurd (no_fit (f.0 e))
        | inr e ↦ rw e refl
      ],
    )
