-- ===== src/Mpc/Node.antt =====
-- apps/mpc-committee/src/node-server.ts: one node of the committee, with its own keys, the token that
-- the coordinator shows it, and its slice of the encrypted shares. A handler returns the node too.
pub mod Access
use shade.Shared.Texts.{codes}
use shade.Shared.{
  ℕ, suc, ◌+◌, String, Bool, true, false, not, List, [], ◌∷◌, Option, none, some, ◌==◌, ltb, nat_eq,
  if◌then◌else◌,
}
use shade.Shared.Maps.{Assoc, get, put}
use shade.Api.Vaults.{Reply, ok, error}
use shade.Mpc.Matching.{MatchResult}
use shade.Mpc.Shamir.{Share}
use shade.Mpc.Batch.{NodeKeyPair, NodeSignature, Crypto, sign_batch}
use shade.Mpc.Session.{EncryptedShare}
use shade.Mpc.Round.{BoxOpen, DecryptReply}

pub record NodeServer : Type 0 where
  pub node : NodeKeyPair
  pub token : String
  pub shares : Assoc EncryptedShare

-- `s.length`, in UTF-16 units, and `Buffer.from(s).length`, in bytes of UTF-8.
abbrev units : List ℕ → ℕ
units [] = 0
units (c ∷ cs) = (if ltb c 65536 then 1 else 2) + units cs

abbrev bytes : List ℕ → ℕ
bytes [] = 0
bytes (c ∷ cs) =
    (if ltb c 128 then 1 else if ltb c 2048 then 2 else if ltb c 65536 then 3 else 4) + bytes cs

-- `requireInternalAuth`; none where `timingSafeEqual` throws, on texts of different numbers of bytes.
unfoldable pub require_internal_auth : String → Option String → Option Bool
unfolding codes
require_internal_auth token none = some false
require_internal_auth token (some provided) =
    if not (nat_eq (units (codes provided)) (units (codes token)))
    then some false
    else if not (nat_eq (bytes (codes provided)) (bytes (codes token)))
    then none
    else some (provided == token)

-- What a handler does once the caller is known; the others get an error.
abbrev pub guarded {ℓ} : {A : Type ℓ} → Option Bool → A → (ℕ → A) → A
guarded none does refuses = refuses 500
guarded (some false) does refuses = refuses 401
guarded (some true) does refuses = does

-- POST /shares/:intentId
unfoldable pub receive_share :
    Option String → String → EncryptedShare → NodeServer → Reply String × NodeServer
unfolding require_internal_auth
receive_share provided intent_id share s =
    guarded (require_internal_auth s.token provided)
      (if not (share.node_id == s.node.node_id)
        then (error 400, s)
        else (ok intent_id, record s { shares = put intent_id share s.shares }))
      (λ code. (error code, s))

-- The share of one intent: `null` where the node has none or it does not decrypt.
abbrev pub opened_share : BoxOpen → NodeServer → String → Option Share
opened_share box_open s intent_id = elim (get intent_id s.shares) [
  | none ↦ none
  | some share ↦ box_open share s.node.encryption_secret
]

-- The loop over the ids that are asked for.
unfoldable pub decrypt_all :
    BoxOpen → NodeServer → List String → Assoc (Option Share) → Assoc (Option Share)
unfolding put
decrypt_all box_open s [] results = results
decrypt_all box_open s (id ∷ ids) results =
    decrypt_all box_open s ids (put id (opened_share box_open s id) results)

-- POST /internal/decrypt
unfoldable pub decrypt : BoxOpen → Option String → List String → NodeServer → Reply DecryptReply
unfolding require_internal_auth decrypt_all
decrypt box_open provided ids s =
    guarded (require_internal_auth s.token provided)
      (ok (record { node_id = s.node.node_id; shares = decrypt_all box_open s ids [] })) error

-- POST /internal/sign-batch
unfoldable pub sign :
    Crypto → Option String → String → List MatchResult → NodeServer → Reply NodeSignature
unfolding require_internal_auth sign_batch
sign c provided batch_id matches s =
    guarded (require_internal_auth s.token provided) (ok (sign_batch c batch_id matches s.node))
      error
