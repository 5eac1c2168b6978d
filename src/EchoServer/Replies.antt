-- ===== src/EchoServer/Replies.antt =====
-- What the echo program sends.
use mathlib.Core.List.{append_assoc, append-nil}
use micro_ros_demos.Prelude.{
  overwrite, length-overwrite, take-overwrite, ℕ, zero, suc, ◌<◌, ◌≡◌, ◌∙◌, refl, sym, ap, Bool,
  true, false, List, [], ◌∷◌, ◌++◌, some, none, arith, ltb, length, take, ◌&&◌, lt→ltb, length-take,
}
use micro_ros_demos.EchoServer.{
  Address, Server, Arrival, buf_size, received, echo_one, echo_loop, returned, serving, zeros, main,
}

-- The replies: every packet that is not empty, to its sender, cut to 1499 bytes.
abbrev pub replies : List Arrival → List (Address × List ℕ)
replies [] = []
replies (none ∷ later) = replies later
replies (some (src, []) ∷ later) = replies later
replies (some (src, x ∷ xs) ∷ later) = (src, take 1499 (x ∷ xs)) ∷ replies later

short : (packet : List ℕ) → length (received packet) < 1500
short packet = omega (arith, length-take 1499 packet)

echo_one-replies :
    (a : Arrival) (s : Server)
    → length s.buf ≡ 1500
    → (s' : Server) × (echo_one a s ≡ some s')
      × (length s'.buf ≡ 1500)
      × (s'.sent ≡ s.sent ++ replies (a ∷ []))
unfolding echo_one
echo_one-replies none s l = (s, refl, l, sym (append-nil s.sent))
echo_one-replies (some (src, [])) s l = (s, refl, l, sym (append-nil s.sent))
echo_one-replies (some (src, x ∷ xs)) s l =
    let bytes = received (x ∷ xs) in
    let filled = overwrite (bytes ++ (0 ∷ [])) s.buf in
    let fits : ltb (length bytes) (length s.buf) ≡ true =
      lt→ltb (length bytes) (length s.buf) (omega (arith, short (x ∷ xs), l)) in
    let taken : take (length bytes) filled ≡ bytes =
      take-overwrite bytes (0 ∷ []) s.buf (omega (arith, short (x ∷ xs), l)) in
    (
      record { buf = filled; sent = s.sent ++ ((src, take (length bytes) filled) ∷ []) },
      rw (echo_one, lt→ltb 0 (length bytes) (omega arith), fits) refl,
      length-overwrite (bytes ++ (0 ∷ [])) s.buf ∙ l,
      ap (λ b. s.sent ++ ((src, b) ∷ [])) taken,
    )

replies-append :
    (a : Arrival) (later : List Arrival) → replies (a ∷ later) ≡ replies (a ∷ []) ++ replies later
replies-append none later = refl
replies-append (some (src, [])) later = refl
replies-append (some (src, x ∷ xs)) later = refl

echo_loop-replies :
    (arrivals : List Arrival) (s : Server)
    → length s.buf ≡ 1500
    → (s' : Server) × (echo_loop arrivals s ≡ some s') × (s'.sent ≡ s.sent ++ replies arrivals)
unfolding echo_loop
echo_loop-replies [] s l = (s, refl, sym (append-nil s.sent))
echo_loop-replies (a ∷ later) s l =
    let (s1, e1, l1, r1) = echo_one-replies a s l in
    let (s2, e2, r2) = echo_loop-replies later s1 l1 in
    (
      s2,
      rw (echo_loop, e1) e2,
      r2
          ∙ ap (λ out. out ++ replies later) r1
          ∙ append_assoc s.sent (replies (a ∷ [])) (replies later)
          ∙ ap (λ out. s.sent ++ out) (sym (replies-append a later)),
    )

length-zeros : (n : ℕ) → length (zeros n) ≡ n
unfolding zeros
length-zeros zero = refl
length-zeros (suc n) = ap suc (length-zeros n)

-- Once its socket is bound, the program never writes beyond its buffer, goes on whatever arrives, and
-- sends in order of arrival each packet that is not empty back to its sender, cut to 1499 bytes, and
-- nothing else. It returns 1 if there is no socket or the port cannot be bound.
pub echo_lem :
    (socket_ok bind_ok : Bool) (arrivals : List Arrival)
    → ((socket_ok && bind_ok) ≡ true
        → (s : Server) × (main socket_ok bind_ok arrivals ≡ serving s)
          × (s.sent ≡ replies arrivals))
      × ((socket_ok && bind_ok) ≡ false → main socket_ok bind_ok arrivals ≡ returned 1)
unfolding main
echo_lem false bind_ok arrivals = (λ e. absurd cc, λ e. refl)
echo_lem true false arrivals = (λ e. absurd cc, λ e. refl)
echo_lem true true arrivals =
    let (s, e, r) =
      echo_loop-replies arrivals (record { buf = zeros buf_size; sent = [] }) (length-zeros 1500) in
    (λ _. (s, rw e refl, r), λ z. absurd cc)
