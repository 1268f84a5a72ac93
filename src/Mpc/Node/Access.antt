-- ===== src/Mpc/Node/Access.antt =====
-- Who a node answers, and what it answers for a share that it was sent.
use shade.Shared.{
  String, ◌≡◌, ◌≢◌, refl, ap, Bool, true, false, List, [], ◌∷◌, Option, none, some, eq_iff, eq_refl,
  arith, member, if◌then◌else◌,
}
use shade.Shared.Maps.{Assoc, get, put, get-put}
use shade.Api.Vaults.{Reply, ok, error}
use shade.Mpc.Matching.{MatchResult}
use shade.Mpc.Shamir.{Share}
use shade.Mpc.Batch.{Crypto}
use shade.Mpc.Session.{EncryptedShare}
use shade.Mpc.Round.{BoxOpen, DecryptReply}
use shade.Mpc.Node.{
  NodeServer, require_internal_auth, receive_share, opened_share, decrypt_all, decrypt, sign,
}

-- The calls that a node answers.
pub data Call : Type 0 where
  share : String → EncryptedShare → Call
  open_shares : List String → Call
  sign_batch : String → List MatchResult → Call

abbrev failed : {A : Type 0} → Reply A → Bool
failed (ok a) = false
failed (error code) = true

-- Whether a call ends in an error, and the node after it.
abbrev pub call : Crypto → BoxOpen → Option String → Call → NodeServer → Bool × NodeServer
call c box_open provided (share id enc) s =
    let (r, s') = receive_share provided id enc s in (failed r, s')
call c box_open provided (open_shares ids) s = (failed (decrypt box_open provided ids s), s)
call c box_open provided (sign_batch id matches) s = (failed (sign c provided id matches s), s)

auth_token :
    (token : String) (provided : Option String)
    → require_internal_auth token provided ≡ some true
    → provided ≡ some token
unfolding require_internal_auth
auth_token token none e = cc
auth_token token (some p) e = ground (arith, eq_iff p token)

token_auth : (token : String) → require_internal_auth token (some token) ≡ some true
unfolding require_internal_auth
token_auth token = ground (arith, eq_refl token)

refused_call :
    (c : Crypto) (box_open : BoxOpen) (provided : Option String) (r : Call) (s : NodeServer)
    (a : Option Bool)
    → require_internal_auth s.token provided ≡ a
    → a ≢ some true
    → call c box_open provided r s ≡ (true, s)
unfolding receive_share decrypt sign
refused_call c box_open provided (share id enc) s none e other = rw (e, receive_share) refl
refused_call c box_open provided (open_shares ids) s none e other = rw (e, decrypt) refl
refused_call c box_open provided (sign_batch id matches) s none e other = rw (e, sign) refl
refused_call c box_open provided (share id enc) s (some false) e other = rw (e, receive_share) refl
refused_call c box_open provided (open_shares ids) s (some false) e other = rw (e, decrypt) refl
refused_call c box_open provided (sign_batch id matches) s (some false) e other = rw (e, sign) refl
refused_call c box_open provided r s (some true) e other = absurd (other refl)

-- A caller who does not show the node's token gets an error, whatever is called, and the node stays as it
-- was.
pub call-refused :
    (c : Crypto) (box_open : BoxOpen) (provided : Option String) (r : Call) (s : NodeServer)
    → provided ≢ some s.token
    → call c box_open provided r s ≡ (true, s)
call-refused c box_open provided r s other =
    refused_call c box_open provided r s _ refl (λ e. other (auth_token s.token provided e))

get-decrypt_all :
    (box_open : BoxOpen) (s : NodeServer) (ids : List String) (results : Assoc (Option Share))
    (id : String)
    → get id (decrypt_all box_open s ids results)
      ≡ (if member id ids then some (opened_share box_open s id) else get id results)
unfolding decrypt_all member
get-decrypt_all box_open s [] results id = refl
get-decrypt_all box_open s (k ∷ ids) results id =
    let results' = put k (opened_share box_open s k) results in
    let ih = get-decrypt_all box_open s ids results' id in
    let after = get-put k id (opened_share box_open s k) results in
    ground (arith, ih, after, eq_iff k id)

opened_share-stored :
    (box_open : BoxOpen) (s : NodeServer) (id : String) (enc : EncryptedShare)
    → get id s.shares ≡ some enc
    → opened_share box_open s id ≡ box_open enc s.node.encryption_secret
opened_share-stored box_open s id enc e = ground arith

-- What the coordinator gets for an id that it asks for, after it has sent a share of that id to the node
-- that it is addressed to: what the share decrypts to under the key of the node.
pub receive_share-decrypt :
    (box_open : BoxOpen) (id : String) (enc : EncryptedShare) (ids : List String) (s : NodeServer)
    → enc.node_id ≡ s.node.node_id
    → member id ids ≡ true
    → (r : DecryptReply) × (decrypt box_open
          (some s.token)
          ids
          (receive_share (some s.token) id enc s).1
        ≡ ok r)
      × (r.node_id ≡ s.node.node_id)
      × (get id r.shares ≡ some (box_open enc s.node.encryption_secret))
unfolding receive_share decrypt
receive_share-decrypt box_open id enc ids s addressed asked =
    let known = token_auth s.token in
    let after = record s { shares = put id enc s.shares } in
    let stored : receive_share (some s.token) id enc s ≡ (ok id, after) =
      rw (known, (eq_iff enc.node_id s.node.node_id).1 addressed, receive_share) refl in
    let here : get id (put id enc s.shares) ≡ some enc =
      rw (get-put id id enc s.shares, eq_refl id) refl in
    (
      record { node_id = s.node.node_id; shares = decrypt_all box_open after ids [] },
      rw (stored, known, decrypt) refl,
      refl,
      rw (get-decrypt_all box_open after ids [] id, asked)
          (ap (λ (o : Option Share). some o) (opened_share-stored box_open after id enc here)),
    )
