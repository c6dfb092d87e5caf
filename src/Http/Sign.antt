-- ===== src/Http/Sign.antt =====
-- cmd/rpc/http.go: `postTransactionSign`.
use cardano_go.Common.{Bytes, List, Option, [], codes, if◌then◌else◌, none, some, ◌∷◌}
use cardano_go.Network.{Network, NetworkParams}
use cardano_go.Http.Errors.{ApiError, Reply, rpc, err_invalid_private_key}
use cardano_go.Http.Commands.{
  Answer, Command, Output, Request, VirtualFile, signed, unhandled, answer, fail, failed_command,
  tx_json, key_json, unmarshal_json, run_cardano_binary,
}

pub record TransactionSignIn : Type 0 where
  pub tx : Bytes
  pub private_key_hex : Bytes

abbrev pub sign_command : Bytes
sign_command =
    codes
      "conway transaction sign --tx-body-file file://tx --signing-key-file file://key --out-file /dev/stdout"

abbrev pub sign_files : Bytes → Bytes → List VirtualFile
sign_files tx key =
    record { name = codes "tx"; content = tx_json (codes "Unwitnessed Tx ConwayEra") tx }
    ∷ record {
      name = codes "key";
      content = key_json (codes "PaymentSigningKeyShelley_ed25519") key;
    }
    ∷ []

-- `decode_hex` is `hex.DecodeString`; `key_cbor_hex` is the CBOR package and `hex.EncodeToString` on
-- the bytes of a key; `cbor_hex` is gjson's field of that name.
unfoldable pub post_transaction_sign :
    Network
    → (NetworkParams → Command → Output)
    → (ApiError → Bytes × Bytes)
    → (decode_hex : Bytes → Option Bytes) → (key_cbor_hex : Bytes → Bytes)
    → (cbor_hex : Bytes → Bytes) → Request TransactionSignIn
    → Reply Answer × List Command
unfolding unmarshal_json run_cardano_binary
post_transaction_sign network cli describe decode_hex key_cbor_hex cbor_hex r =
    elim (unmarshal_json (record { tx = []; private_key_hex = [] }) r) [
      | none ↦ (answer 500 unhandled, [])
      | some (status, i) ↦ elim (decode_hex i.private_key_hex) [
        | none ↦ (fail describe (rpc err_invalid_private_key), [])
        | some key ↦
            let res : Output × List Command =
              run_cardano_binary network cli (sign_command, sign_files i.tx (key_cbor_hex key)) in
            if res.0.1
            then (failed_command res.0.0, res.1)
            else (answer status (signed (cbor_hex res.0.0)), res.1)
      ]
    ]
