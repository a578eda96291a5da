-- ===== src/Protocol/Codec/Whole.antt =====
-- crates/crosspuck-core/src/protocol/codec.rs: decoding backwards, of an input that is taken whole.
use crosspuck.Base.{
  ◌≤◌, ◌≡◌, refl, sym, subst, subst₂, Bool, true, false, inl, inr, [], ◌∷◌, ◌++◌, arith,
  if◌then◌else◌, length, All-append_inv, Bytes, AreBytes, IsU8, IsUsize,
}
use crosspuck.Base.Result.{ok}
use crosspuck.Base.Action.{pure, raise, ◌>>=◌, ◌>>◌, outcome_cases}
use crosspuck.Protocol.Codec.Error.{ProtocolError}
use crosspuck.Protocol.Codec.Decoder
use crosspuck.Protocol.Codec.Decoder.{Decoder, Decoding}
use crosspuck.Protocol.Codec.Reads.{Ahead, length-Ahead}
use crosspuck.Protocol.Codec.Parses.{Parses}

-- A whole input is taken: `S` relates it to the value.
pub record ParsesAll {A : Type 0} (m : Decoding A) (S : A → Bytes → Type 0) : Type 0 where
  pub at : (d d' : Decoder) (a : A) (r : Bytes) → Ahead d r → AreBytes r → m d ≡ (ok a, d') → S a r

module _ {A B : Type 0} where
  pub All-bind :
      {Q : A → Bytes → Type 0} {S : B → Bytes → Type 0} (m : Decoding A) (f : A → Decoding B)
      → Parses m Q
      → ((a : A) (bs : Bytes) → Q a bs → ParsesAll (f a) (λ b cs. S b (bs ++ cs)))
      → ParsesAll (m >>= f) S
  All-bind {S = S} m f head tail = record {
    at = λ d d' b r h v e. elim (outcome_cases (m d)) [
      | inl (a, d1, e1) ↦
          let (bs, rest, split, q, h1) = head.at d d1 a r h v e1 in
          let valid = (All-append_inv IsU8 bs rest (subst AreBytes split v)).1 in
          subst (S b) (sym split) ((tail a bs q).at d1 d' b rest h1 valid (rw e1 at e))
      | inr (x, d1, e1) ↦ absurd (cc (rw e1 at e))
    ];
  }

module _ {A : Type 0} where
  pub All-finish :
      {S : A → Bytes → Type 0} (a : A) → S a [] → ParsesAll (Decoder.finish >> pure a) S
  All-finish {S} a s = record {
    at = λ d d' b r h v e.
        let (same, none_left) = finished a b d d' e in
        subst₂ S same (sym (empty r (omega (arith, length-Ahead d r h)))) s;
  }
    where
      finished :
          (a b : A) (d d' : Decoder)
          → (Decoder.finish >> pure a) d ≡ (ok b, d')
          → (a ≡ b) × (length d.input ≤ d.offset)
      finished a b d d' e = unfold Decoder.finish in ground arith

      empty : (r : Bytes) → length r ≡ 0 → r ≡ []
      empty [] h = refl
      empty (x ∷ r) h = absurd (omega arith)

  pub All-else :
      {S : A → Bytes → Type 0} (b : Bool) (x : ProtocolError) (m : Decoding A)
      → (b ≡ false → ParsesAll m S)
      → ParsesAll (if b then raise x else m) S
  All-else true x m h = record { at = λ d d' a r p v e. absurd (cc e) }
  All-else false x m h = h refl

  pub run-ParsesAll :
      {S : A → Bytes → Type 0} (m : Decoding A) (input : Bytes) (a : A)
      → ParsesAll m S
      → AreBytes input
      → IsUsize (length input)
      → Decoder.run m input ≡ ok a
      → S a input
  unfolding Decoder.run
  run-ParsesAll m input a parses v h e = elim (outcome_cases (m (Decoder.new input))) [
    | inl (b, d, e1) ↦
        let same : b ≡ a = cc (rw e1 at e) in
        let start : Ahead (Decoder.new input) input = record {
          within = omega arith;
          fits = h;
          ahead = refl;
        } in
        parses.at (Decoder.new input) d a input start v (rw same at e1)
    | inr (x, d, e1) ↦ absurd (cc (rw e1 at e))
  ]
