-- ===== src/Settler/Persist.antt =====
-- apps/mpc-committee/src/persist.ts: a signed batch goes to the tables of the settler.
-- A row of `mpc_intents` or `mpc_sessions` has the columns that are written here.
use mathlib.Core.List.{Nodup-cons, mem-cons_self, mem-cons_of_mem}
use shade.Shared.{
  ℕ, String, ◌≡◌, ◌≢◌, refl, sym, ◌∙◌, inl, inr, List, [], ◌∷◌, Option, some, Mem, Nodup, arith,
  ◌==◌, ◌&&◌, eq_iff, Bool-cases, All, length, if◌then◌else◌,
}
use shade.Mpc.Matching.{MatchResult, AmountSort, Intent, match_intents, netted}
use shade.Mpc.Matching.Disjoint.{match_intents-Nodup}
use shade.Mpc.Batch.{NodeSignature, SignedMatchBatch}

pub record StoredBatch : Type 0 where
  pub session_id : String
  pub match_count : ℕ
  pub batch : SignedMatchBatch

pub record SessionRow : Type 0 where
  pub session_id : String
  pub status : String
  pub match_count : ℕ

pub record StatusRow : Type 0 where
  pub intent_id : String
  pub status : String
  pub matched_with : Option String

pub record MpcTables : Type 0 where
  pub batches : List StoredBatch
  pub signatures : List (String × NodeSignature)
  pub sessions : List SessionRow
  pub intents : List StatusRow

-- `INSERT … ON CONFLICT DO NOTHING` by the batch's id.
unfoldable pub insert_batch : StoredBatch → List StoredBatch → List StoredBatch
insert_batch b [] = b ∷ []
insert_batch b (c ∷ batches) =
    if c.batch.batch_id == b.batch.batch_id then c ∷ batches else c ∷ insert_batch b batches

-- `ON CONFLICT (batch_id, node_id) DO NOTHING`
unfoldable pub insert_signature :
    String → NodeSignature → List (String × NodeSignature) → List (String × NodeSignature)
insert_signature id sig [] = (id, sig) ∷ []
insert_signature id sig ((id', old) ∷ rows) =
    if id' == id && old.node_id == sig.node_id
    then (id', old) ∷ rows
    else (id', old) ∷ insert_signature id sig rows

unfoldable pub insert_signatures :
    String → List NodeSignature → List (String × NodeSignature) → List (String × NodeSignature)
unfolding insert_signature
insert_signatures id [] rows = rows
insert_signatures id (sig ∷ sigs) rows = insert_signatures id sigs (insert_signature id sig rows)

unfoldable pub close_session : String → ℕ → List SessionRow → List SessionRow
close_session id count [] = []
close_session id count (s ∷ rows) =
    (if s.session_id == id then record s { status = "signed"; match_count = count } else s)
    ∷ close_session id count rows

-- `UPDATE mpc_intents SET status='matched', matched_with=$2 WHERE intent_id=$1`
unfoldable pub set_matched : String → String → List StatusRow → List StatusRow
set_matched id other [] = []
set_matched id other (r ∷ rows) =
    (if r.intent_id == id then record r { status = "matched"; matched_with = some other } else r)
    ∷ set_matched id other rows

unfoldable pub mark_matches : List MatchResult → List StatusRow → List StatusRow
unfolding set_matched
mark_matches [] rows = rows
mark_matches (m ∷ ms) rows =
    mark_matches ms
      (set_matched m.intent_b_id m.intent_a_id (set_matched m.intent_a_id m.intent_b_id rows))

unfoldable pub persist_signed_batch : MpcTables → String → SignedMatchBatch → MpcTables
unfolding insert_batch insert_signatures close_session mark_matches
persist_signed_batch t session_id batch = record {
  batches =
      insert_batch
        (record { session_id = session_id; match_count = length batch.matches; batch = batch })
        t.batches;
  signatures = insert_signatures batch.batch_id batch.signatures t.signatures;
  sessions = close_session session_id (length batch.matches) t.sessions;
  intents = mark_matches batch.matches t.intents;
}

-- The rows of the intent `id` say that it is matched with `other`.
abbrev pub Points : String → String → List StatusRow → Type 0
Points id other =
    All (λ r. r.intent_id ≡ id → (r.status ≡ "matched") × (r.matched_with ≡ some other))

set_matched-Points :
    (id other : String) (rows : List StatusRow) → Points id other (set_matched id other rows)
unfolding set_matched
set_matched-Points id other [] = tt
set_matched-Points id other (r ∷ rows) = (
  elim (Bool-cases (r.intent_id == id)) [
    | inl hit ↦ rw hit (λ e. (refl, refl))
    | inr miss ↦ rw miss (λ e. absurd (ground (arith, eq_iff r.intent_id id)))
  ],
  set_matched-Points id other rows,
)

set_matched-keeps :
    (id other id' other' : String) (rows : List StatusRow)
    → id' ≢ id
    → Points id' other' rows
    → Points id' other' (set_matched id other rows)
unfolding set_matched
set_matched-keeps id other id' other' [] ne h = tt
set_matched-keeps id other id' other' (r ∷ rows) ne h = (
  elim (Bool-cases (r.intent_id == id)) [
    | inl hit ↦ rw hit (λ e. absurd (ne (sym e ∙ (eq_iff r.intent_id id).0 hit)))
    | inr miss ↦ rw miss h.0
  ],
  set_matched-keeps id other id' other' rows ne h.1,
)

mark_matches-keeps :
    (id other : String) (ms : List MatchResult) (rows : List StatusRow)
    → ¬ (Mem id (netted ms))
    → Points id other rows
    → Points id other (mark_matches ms rows)
unfolding mark_matches
mark_matches-keeps id other [] rows out h = h
mark_matches-keeps id other (m ∷ ms) rows out h =
    mark_matches-keeps id other ms _ (λ i. out (mem-cons_of_mem _ (mem-cons_of_mem _ i)))
      (set_matched-keeps m.intent_b_id m.intent_a_id id other _
        (λ e. out (rw e (mem-cons_of_mem _ mem-cons_self)))
        (set_matched-keeps m.intent_a_id m.intent_b_id id other rows (λ e. out (rw e mem-cons_self))
          h))

mark_matches-Points :
    (ms : List MatchResult) (rows : List StatusRow)
    → Nodup (netted ms)
    → All
        (λ m.
          Points m.intent_a_id m.intent_b_id (mark_matches ms rows)
          × Points m.intent_b_id m.intent_a_id (mark_matches ms rows))
        ms
unfolding mark_matches
mark_matches-Points [] rows n = tt
mark_matches-Points (m ∷ ms) rows n =
    let (a_out, n') = Nodup-cons.0 n in
    let (b_out, rest) = Nodup-cons.0 n' in
    (
      (
        mark_matches-keeps m.intent_a_id m.intent_b_id ms _ (λ i. a_out (mem-cons_of_mem _ i))
            (set_matched-keeps m.intent_b_id m.intent_a_id m.intent_a_id m.intent_b_id _
              (λ e. a_out (rw e mem-cons_self))
              (set_matched-Points m.intent_a_id m.intent_b_id rows)),
        mark_matches-keeps m.intent_b_id m.intent_a_id ms _ b_out
            (set_matched-Points m.intent_b_id m.intent_a_id _),
      ),
      mark_matches-Points ms _ rest,
    )

-- When a batch is stored whose matches `matchIntents` has made, both sides of each match are marked
-- as matched, with each other and with nobody else.
pub persist_signed_batch-Mutual :
    (sorts : AmountSort) (intents : List Intent) (t : MpcTables) (session_id : String)
    (batch : SignedMatchBatch)
    → batch.matches ≡ match_intents sorts intents
    → All
        (λ m.
          Points m.intent_a_id m.intent_b_id (persist_signed_batch t session_id batch).intents
          × Points m.intent_b_id m.intent_a_id (persist_signed_batch t session_id batch).intents)
        batch.matches
unfolding persist_signed_batch
persist_signed_batch-Mutual sorts intents t session_id batch e =
    mark_matches-Points batch.matches t.intents (rw e (match_intents-Nodup sorts intents))
