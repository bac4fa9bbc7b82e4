-- ===== src/Wire/Utf8/Encoded.antt =====
-- The UTF-8 bytes that a Rust `str` has, read by the check of `read_name` in engine_core/src/wire.rs.
use correlation_engine.Prelude.{
  ℕ, ◌+◌, ◌/◌, ◌%◌, ◌<◌, ◌≤◌, ◌≡◌, ◌≢◌, refl, ap, ◌∙◌, inl, inr, Bool, true, false, Option, none,
  some, List, [], ◌∷◌, ◌++◌, ltb, leb, arith, Bool-cases,
}
use correlation_engine.Prelude.Texts.{utf8_char, utf8}
use correlation_engine.Prelude.Chars.{IsScalar, IsText}
use correlation_engine.Wire.Utf8.{trail, scan, is_utf8}

scan_lead :
    (b : ℕ) (bs : List ℕ) (rs : List (ℕ × ℕ)) → trail b ≡ some rs → scan [] (b ∷ bs) ≡ scan rs bs
unfolding scan
scan_lead b bs rs e =
    ap
      (λ (o : Option (List (ℕ × ℕ))). elim o as (λ o. Bool) [ none ↦ false | some rs ↦ scan rs bs ])
      e

scan_next :
    (lo hi b : ℕ) (rs : List (ℕ × ℕ)) (bs : List ℕ)
    → lo ≤ b
    → b ≤ hi
    → scan ((lo, hi) ∷ rs) (b ∷ bs) ≡ scan rs bs
unfolding scan
scan_next lo hi b rs bs p q = ground arith

trail_one : (b : ℕ) → b < 0x80 → trail b ≡ some ([])
unfolding trail
trail_one b h0 = ground arith

trail_two : (b : ℕ) → 0xc2 ≤ b → b ≤ 0xdf → trail b ≡ some ((0x80, 0xbf) ∷ [])
unfolding trail
trail_two b h0 h1 = ground arith

trail_e0 : (b : ℕ) → b ≡ 0xe0 → trail b ≡ some ((0xa0, 0xbf) ∷ (0x80, 0xbf) ∷ [])
unfolding trail
trail_e0 b h0 = ground arith

trail_ed : (b : ℕ) → b ≡ 0xed → trail b ≡ some ((0x80, 0x9f) ∷ (0x80, 0xbf) ∷ [])
unfolding trail
trail_ed b h0 = ground arith

trail_three :
    (b : ℕ) → 0xe1 ≤ b → b ≤ 0xef → b ≢ 0xed → trail b ≡ some ((0x80, 0xbf) ∷ (0x80, 0xbf) ∷ [])
unfolding trail
trail_three b h0 h1 h2 = ground arith

trail_f0 : (b : ℕ) → b ≡ 0xf0 → trail b ≡ some ((0x90, 0xbf) ∷ (0x80, 0xbf) ∷ (0x80, 0xbf) ∷ [])
unfolding trail
trail_f0 b h0 = ground arith

trail_four :
    (b : ℕ) → 0xf1 ≤ b → b ≤ 0xf3 → trail b ≡ some ((0x80, 0xbf) ∷ (0x80, 0xbf) ∷ (0x80, 0xbf) ∷ [])
unfolding trail
trail_four b h0 h1 = ground arith

trail_f4 : (b : ℕ) → b ≡ 0xf4 → trail b ≡ some ((0x80, 0x8f) ∷ (0x80, 0xbf) ∷ (0x80, 0xbf) ∷ [])
unfolding trail
trail_f4 b h0 = ground arith

abbrev IsTrail : ℕ → Type 0
IsTrail b = (0x80 ≤ b) × (b ≤ 0xbf)

scan_two :
    (a b : ℕ) (rest : List ℕ)
    → trail a ≡ some ((0x80, 0xbf) ∷ [])
    → IsTrail b
    → scan [] (a ∷ b ∷ rest) ≡ scan [] rest
scan_two a b rest e h =
    scan_lead a (b ∷ rest) ((0x80, 0xbf) ∷ []) e ∙ scan_next 0x80 0xbf b [] rest h.0 h.1

scan_three :
    (a b c lo hi : ℕ) (rest : List ℕ)
    → trail a ≡ some ((lo, hi) ∷ (0x80, 0xbf) ∷ [])
    → lo ≤ b
    → b ≤ hi
    → IsTrail c
    → scan [] (a ∷ b ∷ c ∷ rest) ≡ scan [] rest
scan_three a b c lo hi rest e p q h =
    scan_lead a (b ∷ c ∷ rest) ((lo, hi) ∷ (0x80, 0xbf) ∷ []) e
    ∙ scan_next lo hi b ((0x80, 0xbf) ∷ []) (c ∷ rest) p q
    ∙ scan_next 0x80 0xbf c [] rest h.0 h.1

scan_four :
    (a b c d lo hi : ℕ) (rest : List ℕ)
    → trail a ≡ some ((lo, hi) ∷ (0x80, 0xbf) ∷ (0x80, 0xbf) ∷ [])
    → lo ≤ b
    → b ≤ hi
    → IsTrail c
    → IsTrail d
    → scan [] (a ∷ b ∷ c ∷ d ∷ rest) ≡ scan [] rest
scan_four a b c d lo hi rest e p q h k =
    scan_lead a (b ∷ c ∷ d ∷ rest) ((lo, hi) ∷ (0x80, 0xbf) ∷ (0x80, 0xbf) ∷ []) e
    ∙ scan_next lo hi b ((0x80, 0xbf) ∷ (0x80, 0xbf) ∷ []) (c ∷ d ∷ rest) p q
    ∙ scan_next 0x80 0xbf c ((0x80, 0xbf) ∷ []) (d ∷ rest) h.0 h.1
    ∙ scan_next 0x80 0xbf d [] rest k.0 k.1

three_bytes :
    (c : ℕ) (rest : List ℕ)
    → 0x800 ≤ c
    → c < 0x10000
    → IsScalar c
    → scan [] ((0xe0 + c / 4096) ∷ (0x80 + c / 64 % 64) ∷ (0x80 + c % 64) ∷ rest) ≡ scan [] rest
three_bytes c rest p q s =
    let a = 0xe0 + c / 4096 in
    let b = 0x80 + c / 64 % 64 in
    let t : IsTrail (0x80 + c % 64) = (omega arith, omega arith) in
    elim (Bool-cases (ltb c 0x1000)) [
      | inl low ↦
          let c_low : c < 0x1000 = ground arith in
          scan_three a b (0x80 + c % 64) 0xa0 0xbf rest (trail_e0 a (omega arith)) (omega arith)
            (omega arith) t
      | inr high ↦ elim s [
        | inl below ↦ elim (Bool-cases (leb 0xd000 c)) [
          | inl ed ↦
              let c_ed : 0xd000 ≤ c = ground arith in
              scan_three a b (0x80 + c % 64) 0x80 0x9f rest (trail_ed a (omega arith)) (omega arith)
                (omega arith) t
          | inr mid ↦
              let c_low : 0x1000 ≤ c = ground arith in
              let c_mid : c < 0xd000 = ground arith in
              scan_three a b (0x80 + c % 64) 0x80 0xbf rest
                (trail_three a (omega arith) (omega arith) (λ e. absurd (omega arith)))
                (omega arith) (omega arith) t
        ]
        | inr above ↦
            scan_three a b (0x80 + c % 64) 0x80 0xbf rest
              (trail_three a (omega arith) (omega arith) (λ e. absurd (omega arith))) (omega arith)
              (omega arith) t
      ]
    ]

four_bytes :
    (c : ℕ) (rest : List ℕ)
    → 0x10000 ≤ c
    → c < 0x110000
    → scan [] (
        (0xf0 + c / 262144)
        ∷ (0x80 + c / 4096 % 64)
        ∷ (0x80 + c / 64 % 64)
        ∷ (0x80 + c % 64)
        ∷ rest)
      ≡ scan [] rest
four_bytes c rest p q =
    let a = 0xf0 + c / 262144 in
    let b = 0x80 + c / 4096 % 64 in
    let t : IsTrail (0x80 + c / 64 % 64) = (omega arith, omega arith) in
    let u : IsTrail (0x80 + c % 64) = (omega arith, omega arith) in
    elim (Bool-cases (ltb c 0x40000)) [
      | inl low ↦
          let c_low : c < 0x40000 = ground arith in
          scan_four a b (0x80 + c / 64 % 64) (0x80 + c % 64) 0x90 0xbf rest
            (trail_f0 a (omega arith)) (omega arith) (omega arith) t u
      | inr high ↦
          let c_high : 0x40000 ≤ c = ground arith in
          elim (Bool-cases (ltb c 0x100000)) [
            | inl mid ↦
                let c_mid : c < 0x100000 = ground arith in
                scan_four a b (0x80 + c / 64 % 64) (0x80 + c % 64) 0x80 0xbf rest
                  (trail_four a (omega arith) (omega arith)) (omega arith) (omega arith) t u
            | inr top ↦
                let c_top : 0x100000 ≤ c = ground arith in
                scan_four a b (0x80 + c / 64 % 64) (0x80 + c % 64) 0x80 0x8f rest
                  (trail_f4 a (omega arith)) (omega arith) (omega arith) t u
          ]
    ]

-- the bytes of one character are read as one
scan-utf8_char : (c : ℕ) (rest : List ℕ) → IsScalar c → scan [] (utf8_char c ++ rest) ≡ scan [] rest
unfolding utf8_char
scan-utf8_char c rest s = elim (Bool-cases (ltb c 0x80)) [
  | inl one ↦ rw one (scan_lead c rest [] (trail_one c (ground arith)))
  | inr more ↦ elim (Bool-cases (ltb c 0x800)) [
    | inl two ↦
        let low : 0x80 ≤ c = ground arith in
        let high : c < 0x800 = ground arith in
        rw (more, two)
          (scan_two (0xc0 + c / 64) (0x80 + c % 64) rest
            (trail_two (0xc0 + c / 64) (omega arith) (omega arith)) (omega arith, omega arith))
    | inr many ↦
        let low : 0x800 ≤ c = ground arith in
        elim (Bool-cases (ltb c 0x10000)) [
          | inl three ↦ rw (more, many, three) (three_bytes c rest low (ground arith) s)
          | inr four ↦ rw (more, many, four) (four_bytes c rest (ground arith) (below_top c s))
        ]
  ]
]
  where
    below_top : (x : ℕ) → IsScalar x → x < 0x110000
    below_top x (inl h) = omega arith
    below_top x (inr h) = h.1

-- The UTF-8 bytes of a text are valid UTF-8.
pub is_utf8-utf8 : (s : List ℕ) → IsText s → is_utf8 (utf8 s) ≡ true
unfolding is_utf8 utf8
is_utf8-utf8 [] h = unfold scan in refl
is_utf8-utf8 (c ∷ cs) h = scan-utf8_char c (utf8 cs) h.0 ∙ is_utf8-utf8 cs h.1
