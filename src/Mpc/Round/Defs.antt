-- ===== src/Mpc/Round/Defs.antt =====
-- The steps of a matching round, and the two rounds made of them.
use shade.Shared.{
  ℕ, String, List, [], ◌∷◌, ◌++◌, map, Option, none, some, leb, ltb, length, if◌then◌else◌,
}
use shade.Shared.Maps.{Assoc, get, put}
use shade.Mpc.Matching
use shade.Mpc.Matching.{AmountSort, MatchResult, match_intents}
use shade.Mpc.Shamir.{Share, shamir_reconstruct}
use shade.Mpc.Batch.{
  SignedMatchBatch, NodeSignature, NodeKeyPair, Crypto, compute_batch_hash, sign_batch, threshold,
}
use shade.Mpc.Session.{
  EncryptedShare, MpcIntent, NodeShareEntry, SessionState, matching, signed, failed,
}

pub data Reason : Type 0 where
  too_few_intents : Reason
  decrypt_failed : String → String → Reason
  not_enough_shares : String → Reason
  too_few_decrypted too_few_signed : ℕ → ℕ → ℕ → Reason

pub data CoordinatorResult : Type 0 where
  done : SignedMatchBatch → CoordinatorResult
  refused : Reason → CoordinatorResult

-- `decryptShare`: `none` where it throws.
abbrev pub BoxOpen : Type 0
BoxOpen = EncryptedShare → String → Option Share

abbrev pub Shares : Type 0
Shares = Assoc (Assoc NodeShareEntry)

-- The loop over one node's entries; it stops at the first that does not decrypt, and gives its intent.
module _ (box_open : BoxOpen) (node : NodeKeyPair) where
  unfoldable pub decrypt_entries : Assoc NodeShareEntry → Assoc NodeShareEntry × Option String
  decrypt_entries [] = ([], none)
  decrypt_entries ((k, e) ∷ entries) =
      let (rest, bad) = decrypt_entries entries in
      elim (box_open (record e.encrypted_share { node_id = node.node_id }) node.encryption_secret) [
        | none ↦ ((k, e) ∷ entries, some e.intent_id)
        | some share ↦ ((k, record e { decrypted_share = some share }) ∷ rest, bad)
      ]

-- Step 1: each node decrypts its shares; a node with no shares is passed over.
module _ (box_open : BoxOpen) where
  unfoldable pub decrypt_nodes : List NodeKeyPair → Shares → Shares × Option (String × String)
  unfolding decrypt_entries
  decrypt_nodes [] shares = (shares, none)
  decrypt_nodes (node ∷ nodes) shares = elim (get node.node_id shares) [
    | none ↦ decrypt_nodes nodes shares
    | some entries ↦
        let (entries', bad) = decrypt_entries box_open node entries in
        let shares' = put node.node_id entries' shares in
        elim bad [
          | some intent_id ↦ (shares', some (node.node_id, intent_id))
          | none ↦ decrypt_nodes nodes shares'
        ]
  ]

abbrev decrypted_in : Option (Assoc NodeShareEntry) → String → Option Share
decrypted_in none intent_id = none
decrypted_in (some entries) intent_id = elim (get intent_id entries) [
  | none ↦ none
  | some e ↦ e.decrypted_share
]

abbrev pushed : List Share → Option Share → List Share
pushed acc none = acc
pushed acc (some s) = acc ++ s ∷ []

-- The loop over the nodes that stops once two shares are there.
unfoldable pub available_shares : List String → Shares → String → List Share → List Share
available_shares [] shares intent_id acc = acc
available_shares (node ∷ nodes) shares intent_id acc =
    let acc' = pushed acc (decrypted_in (get node shares) intent_id) in
    let rest = available_shares nodes shares intent_id acc' in
    if leb 2 (length acc') then acc' else rest

abbrev pub to_match : MpcIntent → String → List Share → Matching.Intent
to_match i intent_id shares = record {
  intent_id = intent_id;
  amount7dp = shamir_reconstruct shares;
  input_asset = i.input_asset;
  output_asset = i.output_asset;
}

-- Step 2: the amounts of all intents, or the first intent that lacks shares.
unfoldable pub reconstruct_intents :
    List String → Shares → Assoc MpcIntent → List Matching.Intent × Option String
unfolding available_shares
reconstruct_intents nodes shares [] = ([], none)
reconstruct_intents nodes shares ((intent_id, i) ∷ intents) =
    let found = available_shares nodes shares intent_id [] in
    let (rest, missing) = reconstruct_intents nodes shares intents in
    if ltb (length found) 2
    then ([], some intent_id)
    else (to_match i intent_id found ∷ rest, missing)

abbrev pub clear_entries : Assoc NodeShareEntry → Assoc NodeShareEntry
clear_entries = map (λ e. (e.0, record (e.1) { decrypted_share = none }))

-- The decrypted shares of the listed nodes are dropped.
unfoldable pub clear_nodes : List String → Shares → Shares
clear_nodes [] shares = shares
clear_nodes (node ∷ nodes) shares = elim (get node shares) [
  | none ↦ clear_nodes nodes shares
  | some entries ↦ clear_nodes nodes (put node (clear_entries entries) shares)
]

abbrev pub node_ids : List NodeKeyPair → List String
node_ids = map (λ n. n.node_id)

-- The batch that the nodes sign in step 4.
abbrev pub sign_round :
    Crypto → String → String → List MatchResult → List NodeSignature → SignedMatchBatch
sign_round c batch_id session_id matches signatures = record {
  batch_id = batch_id;
  session_id = session_id;
  matches = matches;
  batch_hash = compute_batch_hash c batch_id matches;
  signatures = signatures;
}

abbrev pub fail : SessionState → Reason → SessionState × CoordinatorResult
fail s reason = (record s { status = failed }, refused reason)

abbrev pub finish : SessionState → SignedMatchBatch → SessionState × CoordinatorResult
finish s batch = (record s { status = signed; signed_batch = some batch }, done batch)

module _ (c : Crypto) (sorts : AmountSort) (batch_id : String) where
  -- Steps 2 to 4 on the shares that are decrypted.
  unfoldable pub match_and_sign : List NodeKeyPair → SessionState → SessionState × CoordinatorResult
  unfolding reconstruct_intents clear_nodes
  match_and_sign nodes s =
      let (intents, missing) = reconstruct_intents (node_ids nodes) s.shares s.intents in
      elim missing [
        | some intent_id ↦ fail s (not_enough_shares intent_id)
        | none ↦
            let matches = match_intents sorts intents in
            finish (record s { shares = clear_nodes (node_ids nodes) s.shares })
              (sign_round c batch_id s.session_id matches
                (map (sign_batch c batch_id matches) nodes))
      ]

  unfoldable pub run_matching_round :
      BoxOpen → SessionState → List NodeKeyPair → SessionState × CoordinatorResult
  unfolding match_and_sign decrypt_nodes
  run_matching_round box_open s nodes =
      if ltb (length s.intents) 2
      then (s, refused too_few_intents)
      else let (shares, bad) = decrypt_nodes box_open nodes s.shares in
        let s' = record s { status = matching; shares = shares } in
        elim bad [
          | some (node_id, intent_id) ↦ fail s' (decrypt_failed node_id intent_id)
          | none ↦ match_and_sign nodes s'
        ]

-- The answer of a node to POST /internal/decrypt; a share may be `null`.
pub record DecryptReply : Type 0 where
  pub node_id : String
  pub shares : Assoc (Option Share)

-- `results.filter(r => r !== null)`
abbrev pub answers {ℓ} : {A : Type ℓ} → List (Option A) → List A
answers [] = []
answers (none ∷ rs) = answers rs
answers (some r ∷ rs) = r ∷ answers rs

abbrev set_share :
    Option NodeShareEntry → String → Option Share → Assoc NodeShareEntry → Assoc NodeShareEntry
set_share none intent_id share entries = entries
set_share (some e) intent_id share entries =
    put intent_id (record e { decrypted_share = share }) entries

unfoldable pub store_reply_shares :
    Assoc NodeShareEntry → Assoc (Option Share) → Assoc NodeShareEntry
store_reply_shares entries [] = entries
store_reply_shares entries ((intent_id, share) ∷ shares) =
    store_reply_shares (set_share (get intent_id entries) intent_id share entries) shares

unfoldable pub store_replies : Shares → List DecryptReply → Shares
unfolding store_reply_shares
store_replies shares [] = shares
store_replies shares (r ∷ replies) = elim (get r.node_id shares) [
  | none ↦ store_replies shares replies
  | some entries ↦
      store_replies (put r.node_id (store_reply_shares entries r.shares) shares) replies
]

module _ (c : Crypto) (sorts : AmountSort) (batch_id : String) where
  -- Steps 2 to 4 of the remote round; `asked` holds what the nodes answer to POST
  -- /internal/sign-batch, `n` the number of nodes and `need` the threshold.
  unfoldable pub match_and_collect :
      (List MatchResult → List (Option NodeSignature))
      → ℕ
      → ℕ
      → List String
      → SessionState
      → SessionState × CoordinatorResult
  unfolding reconstruct_intents clear_nodes
  match_and_collect asked n need nodes s =
      let (intents, missing) = reconstruct_intents nodes s.shares s.intents in
      elim missing [
        | some intent_id ↦ fail s (not_enough_shares intent_id)
        | none ↦
            let cleared = record s { shares = clear_nodes nodes s.shares } in
            let matches = match_intents sorts intents in
            let signatures = answers (asked matches) in
            if ltb (length signatures) need
            then fail cleared (too_few_signed (length signatures) n need)
            else finish cleared (sign_round c batch_id s.session_id matches signatures)
      ]

  unfoldable pub run_matching_round_remote :
      List (Option DecryptReply)
      → (List MatchResult → List (Option NodeSignature))
      → SessionState
      → List String
      → SessionState × CoordinatorResult
  unfolding match_and_collect store_replies threshold
  run_matching_round_remote decrypted asked s nodes =
      if ltb (length s.intents) 2
      then (s, refused too_few_intents)
      else let n = length nodes in
        let need = threshold n in
        let started = record s { status = matching } in
        let responding = answers decrypted in
        if ltb (length responding) need
        then fail started (too_few_decrypted (length responding) n need)
        else match_and_collect asked n need nodes
            (record started { shares = store_replies s.shares responding })
