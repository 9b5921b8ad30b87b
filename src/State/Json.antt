-- ===== src/State/Json.antt =====
-- `json.Marshal` of a list of accounts, as encoding/json writes it: no blanks, fields in the order
-- of the struct, HTML characters escaped.
use ganc_sys.Prelude.{ℕ, ◌/◌, ◌%◌, ◌≡◌, refl, List, [], ◌∷◌, ◌++◌, eqb, ltb, ◌||◌, if◌then◌else◌}
use ganc_sys.Text.{Text, codes}
use ganc_sys.Hash.{hex_digit}
use ganc_sys.Types.{Account}

escape_code : ℕ → Text
escape_code c =
    b'\\'
    ∷ b'u'
    ∷ hex_digit (c / 4096 % 16)
    ∷ hex_digit (c / 256 % 16)
    ∷ hex_digit (c / 16 % 16)
    ∷ hex_digit (c % 16)
    ∷ []

-- One character inside a JSON string.
escape : ℕ → Text
unfolding hex_digit
escape c =
    if eqb c b'"' || eqb c b'\\'
    then b'\\' ∷ c ∷ []
    else if eqb c 8
    then b'\\' ∷ b'b' ∷ []
    else if eqb c 12
    then b'\\' ∷ b'f' ∷ []
    else if eqb c 10
    then b'\\' ∷ b'n' ∷ []
    else if eqb c 13
    then b'\\' ∷ b'r' ∷ []
    else if eqb c 9
    then b'\\' ∷ b't' ∷ []
    else if ltb c 32 || eqb c b'<' || eqb c b'>' || eqb c b'&' || eqb c 0x2028 || eqb c 0x2029
    then escape_code c
    else c ∷ []

escape_all : Text → Text
escape_all [] = []
escape_all (c ∷ s) = escape c ++ escape_all s

quote : Text → Text
quote s = b'"' ∷ (escape_all s ++ b'"' ∷ [])

marshal_account : Account → Text
unfolding quote
marshal_account a =
    codes "{\"owner\":"
    ++ (quote a.owner
        ++ (codes ",\"denom\":"
            ++ (quote a.denom
                ++ (codes ",\"balance\":"
                    ++ (quote a.balance
                        ++ (codes ",\"nonce\":" ++ (quote a.nonce ++ codes "}")))))))

marshal_rest : List Account → Text
marshal_rest [] = b']' ∷ []
marshal_rest (a ∷ l) = b',' ∷ (marshal_account a ++ marshal_rest l)

-- `json.Marshal(accounts)`
unfoldable pub marshal_accounts : List Account → Text
unfolding marshal_rest marshal_account quote escape_all escape escape_code
marshal_accounts [] = b'[' ∷ b']' ∷ []
marshal_accounts (a ∷ l) = b'[' ∷ (marshal_account a ++ marshal_rest l)

marshal_two :
    marshal_accounts (
      record { owner = codes "a\"<"; denom = codes "u"; balance = codes "1"; nonce = codes "0" }
      ∷ [])
    ≡ codes "[{\"owner\":\"a\\\"\\u003c\",\"denom\":\"u\",\"balance\":\"1\",\"nonce\":\"0\"}]"
unfolding marshal_accounts
marshal_two = refl
