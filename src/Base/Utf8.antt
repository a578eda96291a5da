-- ===== src/Base/Utf8.antt =====
-- `std::str::from_utf8`: the well-formed byte sequences of the Unicode standard (its table 3-7).
use crosspuck.Base.{ℕ, ◌≡◌, refl, Bool, true, false, ◌&&◌, ◌||◌, [], ◌∷◌, ◌==◌, leb, Bytes}

unfoldable pub in_range : ℕ → ℕ → ℕ → Bool
in_range first last b = leb first b && leb b last

abbrev continuation : ℕ → Bool
continuation b = in_range 0x80 0xbf b

-- The second byte is held tighter after some first bytes: no overlong forms, no surrogates, and
-- nothing above U+10FFFF.
unfoldable pub well_formed_3 : ℕ → ℕ → ℕ → Bool
unfolding in_range
well_formed_3 a b c =
    ((a == 0xe0 && in_range 0xa0 0xbf b)
      || (in_range 0xe1 0xec a && continuation b)
      || (a == 0xed && in_range 0x80 0x9f b)
      || (in_range 0xee 0xef a && continuation b))
    && continuation c

unfoldable pub well_formed_4 : ℕ → ℕ → ℕ → ℕ → Bool
unfolding in_range
well_formed_4 a b c d =
    ((a == 0xf0 && in_range 0x90 0xbf b)
      || (in_range 0xf1 0xf3 a && continuation b)
      || (a == 0xf4 && in_range 0x80 0x8f b))
    && continuation c
    && continuation d

-- One byte, or the bytes that its first announces, and then the rest.
unfoldable pub is_utf8 : Bytes → Bool
unfolding in_range well_formed_3 well_formed_4
is_utf8 [] = true
is_utf8 (a ∷ []) = leb a 0x7f
is_utf8 (a ∷ b ∷ []) = (leb a 0x7f && leb b 0x7f) || (in_range 0xc2 0xdf a && continuation b)
is_utf8 (a ∷ b ∷ c ∷ []) =
    let after_one = is_utf8 (b ∷ c ∷ []) in
    let after_two = is_utf8 (c ∷ []) in
    (leb a 0x7f && after_one)
    || (in_range 0xc2 0xdf a && continuation b && after_two)
    || well_formed_3 a b c
is_utf8 (a ∷ b ∷ c ∷ d ∷ rest) =
    let after_one = is_utf8 (b ∷ c ∷ d ∷ rest) in
    let after_two = is_utf8 (c ∷ d ∷ rest) in
    let after_three = is_utf8 (d ∷ rest) in
    let after_four = is_utf8 rest in
    elim (leb a 0x7f) [
      | true ↦ after_one
      | false ↦ elim (in_range 0xc2 0xdf a && continuation b) [
        | true ↦ after_two
        | false ↦ elim (well_formed_3 a b c) [
          | true ↦ after_three
          | false ↦ well_formed_4 a b c d && after_four
        ]
      ]
    ]

-- "Büro" and a surrogate.
text_utf8 : is_utf8 (b'B' ∷ 0xc3 ∷ 0xbc ∷ b'r' ∷ b'o' ∷ []) ≡ true
unfolding is_utf8
text_utf8 = refl

surrogate_not_utf8 : is_utf8 (0xed ∷ 0xa0 ∷ 0x80 ∷ []) ≡ false
unfolding is_utf8
surrogate_not_utf8 = refl
