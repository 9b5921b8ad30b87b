-- ===== src/Batch/PublicInputs/Contract.antt =====
-- internal/batch/public_inputs.go: the shape that the public inputs ask for.
use ganc_sys.Prelude.{
  ℕ, ◌/◌, ◌%◌, ◌<◌, ◌≡◌, ◌≢◌, ◌↔◌, refl, ap, sym, ◌∙◌, List, [], ◌∷◌, arith, All, length, ok,
  Result-cases, inl, inr, true, false, not, ◌++◌,
}
use ganc_sys.Text.{Text, text_eq, text_beq_iff, is_empty, is_space, trim_space, has_prefix, drop}
use ganc_sys.Text.Trim.{IsSolid, trim_space-IsSolid}
use ganc_sys.Hash.{
  IsDigest, hex_digit, hex_encode, sha256_hex, hex_prefix, is_hex_prefixed, strip_hex,
}
use ganc_sys.Types.{SettlementUpdate, BatchCommitments}
use ganc_sys.Batch.Settlement.{
  SettlementInputs, SettlementUpdateBuilder, build_settlement, validate_root, validate_hex,
}
use ganc_sys.Batch.Settlement.Build.{build_settlement_iff}
use ganc_sys.Batch.Commitments.{
  build_commitments, deposits_root, withdrawals_root, nullifiers_root, withdraw_outputs_root,
}
use ganc_sys.Batch.PublicInputs.{build_public_inputs}

-- The shape of a hex value, up to surrounding spaces: "0x" and something behind it.
abbrev pub IsHex : Text → Type 0
IsHex t = (digits : Text) × (trim_space t ≡ hex_prefix ++ digits) × (digits ≢ [])

shape :
    (v : Text)
    → (not (is_empty v) ≡ true) × (is_hex_prefixed v ≡ true) × (not (is_empty (strip_hex v)) ≡ true)
    → (digits : Text) × (v ≡ hex_prefix ++ digits) × (digits ≢ [])
unfolding is_hex_prefixed strip_hex has_prefix drop
shape [] h = absurd (ground (arith, h))
shape (a ∷ []) h = absurd (ground (arith, h))
shape (a ∷ b ∷ []) h = absurd (ground (arith, h))
shape (a ∷ b ∷ c ∷ v) h = (c ∷ v, ground (arith, h), ground arith)

shaped : (t : Text) → IsHex t → validate_hex t ≡ ok tt
unfolding validate_hex is_hex_prefixed strip_hex has_prefix drop
shaped t ([], e, some_digit) = absurd (some_digit refl)
shaped t (c ∷ digits, e, some_digit) = rw e refl

pub validate_hex_iff : (t : Text) → (validate_hex t ≡ ok tt) ↔ IsHex t
unfolding validate_hex
validate_hex_iff t = (λ h. shape (trim_space t) (ground (arith, h)), shaped t)

-- Two different roots of the state, and four roots of the batch, all in the shape of a hex value.
pub record IsProvable (upd : SettlementUpdate) (c : BatchCommitments) : Type 0 where
  pub old_root : IsHex upd.old_state_root
  pub new_root : IsHex upd.new_state_root
  pub moves : upd.old_state_root ≢ upd.new_state_root
  pub deposits : IsHex c.deposits_root
  pub withdrawals : IsHex c.withdrawals_root
  pub nullifiers : IsHex c.nullifiers_root
  pub outputs : IsHex c.withdraw_outputs_root

-- The six, in their order.
abbrev pub public_inputs_of : SettlementUpdate → BatchCommitments → List Text
public_inputs_of upd c =
    upd.old_state_root ∷ upd.new_state_root ∷ c.deposits_root ∷ c.withdrawals_root
    ∷ c.nullifiers_root ∷ c.withdraw_outputs_root ∷ []

public_inputs_sound :
    (upd : SettlementUpdate) (c : BatchCommitments) (out : List Text)
    → build_public_inputs upd c ≡ ok out
    → IsProvable upd c × (out ≡ public_inputs_of upd c)
unfolding build_public_inputs
public_inputs_sound upd c out h = elim (Result-cases (validate_hex upd.old_state_root)) [
  | inr (e, bad) ↦ absurd (ground arith)
  | inl (_, h1) ↦ elim (Result-cases (validate_hex upd.new_state_root)) [
    | inr (e, bad) ↦ absurd (ground arith)
    | inl (_, h2) ↦ elim (Result-cases (validate_hex c.deposits_root)) [
      | inr (e, bad) ↦ absurd (ground arith)
      | inl (_, h3) ↦ elim (Result-cases (validate_hex c.withdrawals_root)) [
        | inr (e, bad) ↦ absurd (ground arith)
        | inl (_, h4) ↦ elim (Result-cases (validate_hex c.nullifiers_root)) [
          | inr (e, bad) ↦ absurd (ground arith)
          | inl (_, h5) ↦ elim (Result-cases (validate_hex c.withdraw_outputs_root)) [
            | inr (e, bad) ↦ absurd (ground arith)
            | inl (_, h6) ↦
                let differ = text_beq_iff upd.old_state_root upd.new_state_root in
                (
                  record {
                    old_root = (validate_hex_iff _).0 h1;
                    new_root = (validate_hex_iff _).0 h2;
                    moves = ground (arith, h, h1, h2, h3, h4, h5, h6, differ);
                    deposits = (validate_hex_iff _).0 h3;
                    withdrawals = (validate_hex_iff _).0 h4;
                    nullifiers = (validate_hex_iff _).0 h5;
                    outputs = (validate_hex_iff _).0 h6;
                  },
                  ground (arith, h, h1, h2, h3, h4, h5, h6, differ),
                )
          ]
        ]
      ]
    ]
  ]
]

public_inputs_complete :
    (upd : SettlementUpdate) (c : BatchCommitments)
    → IsProvable upd c
    → build_public_inputs upd c ≡ ok (public_inputs_of upd c)
unfolding build_public_inputs
public_inputs_complete upd c h = ground (
  arith,
  (validate_hex_iff upd.old_state_root).1 h.old_root,
  (validate_hex_iff upd.new_state_root).1 h.new_root,
  h.moves,
  (validate_hex_iff c.deposits_root).1 h.deposits,
  (validate_hex_iff c.withdrawals_root).1 h.withdrawals,
  (validate_hex_iff c.nullifiers_root).1 h.nullifiers,
  (validate_hex_iff c.withdraw_outputs_root).1 h.outputs,
  text_beq_iff upd.old_state_root upd.new_state_root,
)

-- Public inputs are built exactly if the two state roots and the four batch roots have the shape of
-- hex values and the state roots differ, and are then the six roots in their order.
pub build_public_inputs_iff :
    (upd : SettlementUpdate) (c : BatchCommitments) (out : List Text)
    → (build_public_inputs upd c ≡ ok out) ↔ (IsProvable upd c × (out ≡ public_inputs_of upd c))
build_public_inputs_iff upd c out =
    (public_inputs_sound upd c out, λ h. public_inputs_complete upd c h.0 ∙ ap ok (sym h.1))

hex_digit_solid : (d : ℕ) → d < 16 → is_space (hex_digit d) ≡ false
unfolding hex_digit is_space
hex_digit_solid d h = ground arith

hex_encode-IsSolid : (bs : List ℕ) → All (λ (b : ℕ). b < 256) bs → IsSolid (hex_encode bs)
unfolding hex_encode
hex_encode-IsSolid [] h = tt
hex_encode-IsSolid (b ∷ bs) h = (
  hex_digit_solid (b / 16) (omega (arith, h.0)),
  (hex_digit_solid (b % 16) (omega arith), hex_encode-IsSolid bs h.1),
)

two_digits : (bs : List ℕ) → length bs ≡ 32 → is_empty (hex_encode bs) ≡ false
unfolding hex_encode
two_digits [] h = absurd (omega (arith, h))
two_digits (b ∷ bs) h = refl

module _ (sha256 : Text → List ℕ) (digest : IsDigest sha256) where
  sha256_hex-hex : (t : Text) → validate_hex (sha256_hex sha256 t) ≡ ok tt
  unfolding validate_hex sha256_hex is_hex_prefixed has_prefix strip_hex drop
  sha256_hex-hex t =
      let solid : IsSolid (sha256_hex sha256 t) = (
        unfold is_space in refl,
        (unfold is_space in refl, hex_encode-IsSolid (sha256 t) (digest.digest_bytes t)),
      ) in
      rw (trim_space-IsSolid (sha256_hex sha256 t) solid)
        (ground (arith, two_digits (sha256 t) (digest.digest_length t)))

  root_is_hex : (t : Text) → validate_root t ≡ ok tt → validate_hex t ≡ ok tt
  unfolding validate_root validate_hex
  root_is_hex t h = h

  -- For every settlement that is built, with the commitments that are built from it, the public
  -- inputs are built, and are old root, new root, deposits root, withdrawals root, nullifiers root
  -- and withdraw outputs root in this order; for a hash of 32 bytes.
  pub built_settlement_has_public_inputs :
      (input : SettlementInputs) (b b' : SettlementUpdateBuilder) (upd : SettlementUpdate)
      → build_settlement sha256 input b ≡ (ok upd, b')
      → build_public_inputs upd (build_commitments sha256 upd)
        ≡ ok (public_inputs_of upd (build_commitments sha256 upd))
  unfolding build_commitments deposits_root withdrawals_root nullifiers_root withdraw_outputs_root
  built_settlement_has_public_inputs input b b' upd h =
      let ((denom, s), whole, _) = (build_settlement_iff sha256 input b b' upd).0 h in
      public_inputs_complete upd (build_commitments sha256 upd) (record {
        old_root =
            (validate_hex_iff upd.old_state_root).0
              (ground (arith, whole, root_is_hex input.old_state_root s.old_root));
        new_root =
            (validate_hex_iff upd.new_state_root).0
              (ground (arith, whole, root_is_hex input.new_state_root s.new_root));
        moves = ground (arith, whole, s.moves);
        deposits = (validate_hex_iff _).0 (sha256_hex-hex _);
        withdrawals = (validate_hex_iff _).0 (sha256_hex-hex _);
        nullifiers = (validate_hex_iff _).0 (sha256_hex-hex _);
        outputs = (validate_hex_iff _).0 (sha256_hex-hex _);
      })
