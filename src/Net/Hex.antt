-- ===== src/Net/Hex.antt =====
-- What `put_pkt_hex` leaves in its buffer.
use micro_ros_demos.Prelude.{
  ℕ, ◌+◌, ◌-◌, ◌*◌, ◌/◌, ◌%◌, ◌<◌, ◌≡◌, ◌∙◌, refl, sym, ap, List, [], ◌∷◌, ◌++◌, ltb, if◌then◌else◌,
  length, arith,
}
use micro_ros_demos.Memory.{Mem, blit, load_bytes, blit-below, blit-above}
use micro_ros_demos.Net.{hex_digit, byte_text, put_pkt_hex}

abbrev pub hex_text : List ℕ → List ℕ
hex_text [] = []
hex_text (b ∷ bs) = hex_digit (b / 16 % 16) ∷ hex_digit (b % 16) ∷ b' ' ∷ hex_text bs

abbrev digit_value : ℕ → ℕ
digit_value c = if ltb c b'a' then c - b'0' else c - b'a' + 10

-- The bytes that a dump shows.
abbrev pub read_hex : List ℕ → List ℕ
read_hex (x ∷ y ∷ _ ∷ rest) = (digit_value x * 16 + digit_value y) ∷ read_hex rest
read_hex _ = []

abbrev pub AllBytes : List ℕ → Type 0
AllBytes [] = Unit {0}
AllBytes (b ∷ bs) = (b < 256) × AllBytes bs

digit_value-hex_digit : (d : ℕ) → d < 16 → digit_value (hex_digit d) ≡ d
digit_value-hex_digit d h = ground arith

read_hex-hex_text : (bs : List ℕ) → AllBytes bs → read_hex (hex_text bs) ≡ bs
read_hex-hex_text [] h = refl
read_hex-hex_text (b ∷ bs) (l, h) =
    let e : digit_value (hex_digit (b / 16 % 16)) * 16 + digit_value (hex_digit (b % 16)) ≡ b =
      omega (
        arith,
        digit_value-hex_digit (b / 16 % 16) (omega arith),
        digit_value-hex_digit (b % 16) (omega arith),
      ) in
    rw (e, read_hex-hex_text bs h) refl

length-hex_text : (bs : List ℕ) → length (hex_text bs) ≡ 3 * length bs
length-hex_text [] = refl
length-hex_text (b ∷ bs) = omega (arith, length-hex_text bs)

put_pkt_hex-below : (out : Mem) (bs : List ℕ) (k x : ℕ) → x < k → (put_pkt_hex out bs k).1 x ≡ out x
unfolding put_pkt_hex
put_pkt_hex-below out [] k x h = refl
put_pkt_hex-below out (b ∷ bs) k x h =
    put_pkt_hex-below (blit out k (byte_text b ++ (0 ∷ []))) bs (k + 3) x (omega arith)
    ∙ blit-below out k (byte_text b ++ (0 ∷ [])) x h

put_pkt_hex-above :
    (out : Mem) (bs : List ℕ) (k x : ℕ)
    → k + length (hex_text bs) < x
    → (put_pkt_hex out bs k).1 x ≡ out x
unfolding put_pkt_hex
put_pkt_hex-above out [] k x h = refl
put_pkt_hex-above out (b ∷ bs) k x h =
    put_pkt_hex-above (blit out k (byte_text b ++ (0 ∷ []))) bs (k + 3) x (omega arith)
    ∙ blit-above out k (byte_text b ++ (0 ∷ [])) x (omega arith)

put_pkt_hex-length :
    (out : Mem) (bs : List ℕ) (k : ℕ) → (put_pkt_hex out bs k).0 ≡ k + length (hex_text bs)
unfolding put_pkt_hex
put_pkt_hex-length out [] k = omega arith
put_pkt_hex-length out (b ∷ bs) k =
    put_pkt_hex-length (blit out k (byte_text b ++ (0 ∷ []))) bs (k + 3) ∙ omega arith

three_bytes :
    (out : Mem) (k x y z : ℕ)
    → let m = blit out k (x ∷ y ∷ z ∷ 0 ∷ []) in (m k ≡ x) × (m (k + 1) ≡ y) × (m (k + 1 + 1) ≡ z)
three_bytes out k x y z = (ground arith, ground arith, ground arith)

cons_eq : {x y : ℕ} {xs ys : List ℕ} → x ≡ y → xs ≡ ys → x ∷ xs ≡ y ∷ ys
cons_eq p q = cc

put_pkt_hex-text :
    (out : Mem) (bs : List ℕ) (k : ℕ)
    → load_bytes (put_pkt_hex out bs k).1 k (length (hex_text bs)) ≡ hex_text bs
unfolding put_pkt_hex
put_pkt_hex-text out [] k = refl
put_pkt_hex-text out (b ∷ bs) k =
    let out' : Mem = blit out k (byte_text b ++ (0 ∷ [])) in
    let (x, y, z) = three_bytes out k (hex_digit (b / 16 % 16)) (hex_digit (b % 16)) b' ' in
    let first = put_pkt_hex-below out' bs (k + 3) k (omega arith) ∙ x in
    let second = put_pkt_hex-below out' bs (k + 3) (k + 1) (omega arith) ∙ y in
    let third = put_pkt_hex-below out' bs (k + 3) (k + 1 + 1) (omega arith) ∙ z in
    let next : k + 1 + 1 + 1 ≡ k + 3 = omega arith in
    let rest =
      ap (λ a. load_bytes (put_pkt_hex out' bs (k + 3)).1 a (length (hex_text bs))) next
      ∙ put_pkt_hex-text out' bs (k + 3) in
    cons_eq first (cons_eq second (cons_eq third rest))

-- For a packet of bytes, `put_pkt_hex` returns three times its length and writes text from which the
-- packet can be read back. It writes nothing beyond the NUL behind that text.
pub put_pkt_hex_lem :
    (out : Mem) (bs : List ℕ)
    → AllBytes bs
    → ((put_pkt_hex out bs 0).0 ≡ 3 * length bs)
      × (read_hex (load_bytes (put_pkt_hex out bs 0).1 0 (3 * length bs)) ≡ bs)
      × ((x : ℕ) → 3 * length bs < x → (put_pkt_hex out bs 0).1 x ≡ out x)
put_pkt_hex_lem out bs h = (
  put_pkt_hex-length out bs 0 ∙ omega (arith, length-hex_text bs),
  ap (λ n. read_hex (load_bytes (put_pkt_hex out bs 0).1 0 n)) (sym (length-hex_text bs))
      ∙ ap read_hex (put_pkt_hex-text out bs 0)
      ∙ read_hex-hex_text bs h,
  λ x l. put_pkt_hex-above out bs 0 x (omega (arith, length-hex_text bs)),
)
