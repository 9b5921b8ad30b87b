-- ===== src/Tests/Data.antt =====
-- The values that the tests share.
use ganc_sys.Prelude.{ℕ, ◌%◌, ◌<◌, refl, Bool, List, [], ◌∷◌, arith, length, All}
use ganc_sys.Text.{Text, codes}
use ganc_sys.Hash.{IsDigest}
use ganc_sys.Types.{DepositRecord, WithdrawRequest}
use ganc_sys.State.Account.{AccountKey}
use ganc_sys.State.Local.{LocalState, new_local_state_with_genesis_root}

abbrev pub zeros : List ℕ
zeros =
    0 ∷ 0 ∷ 0 ∷ 0 ∷ 0 ∷ 0 ∷ 0 ∷ 0 ∷ 0 ∷ 0 ∷ 0 ∷ 0 ∷ 0 ∷ 0 ∷ 0 ∷ 0 ∷ 0 ∷ 0 ∷ 0 ∷ 0 ∷ 0 ∷ 0 ∷ 0 ∷ 0
    ∷ 0 ∷ 0 ∷ 0 ∷ 0 ∷ 0 ∷ 0 ∷ 0 ∷ []

-- A hash of 32 bytes that stands for SHA-256 in the tests: the length of the text, and zeros.
abbrev pub length_digest : Text → List ℕ
length_digest t = (length t % 256) ∷ zeros

pub length_digest-IsDigest : IsDigest length_digest
length_digest-IsDigest = record {
  digest_length = λ t. refl;
  digest_bytes = λ t. (omega arith, zeros_small);
}
  where
    zeros_small : All (λ (b : ℕ). b < 256) zeros
    zeros_small = ground arith

abbrev pub alice : Text
alice = codes "alice"

abbrev pub usdc : Text
usdc = codes "uusdc"

abbrev pub deposit_100 : DepositRecord
deposit_100 = record {
  deposit_id = codes "dep-1";
  owner = alice;
  denom = usdc;
  amount = codes "100";
  processed = Bool.false;
  created_height = 7;
  tx_hash = codes "0xaa";
}

abbrev pub withdraw_40 : WithdrawRequest
withdraw_40 = record {
  withdraw_id = codes "wd-1";
  owner = alice;
  denom = usdc;
  amount = codes "40";
  destination = codes "cosmos1dest";
  nonce = codes "1";
  signature = [];
}

abbrev pub nullifier_1 : Text
nullifier_1 = codes "0xn1"

abbrev pub genesis : LocalState
genesis = new_local_state_with_genesis_root length_digest []

abbrev pub alice_usdc : AccountKey
alice_usdc = record { owner = alice; denom = usdc }
