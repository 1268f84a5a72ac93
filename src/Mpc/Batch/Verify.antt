-- ===== src/Mpc/Batch/Verify.antt =====
-- `verifySignedBatch` accepts a batch for its committee exactly if enough members signed it.
use mathlib.Core.List.{not-mem-nil, mem-cons, mem-cons_self, mem-cons_of_mem, Nodup-nil, Nodup-cons}
use mathlib.Core.Logic.Or
use shade.Shared.{
  ◌+◌, ◌≤◌, String, ◌≡◌, ◌↔◌, refl, sym, ap, subst, ◌∙◌, inl, inr, true, false, List, [], ◌∷◌, map,
  Option, some, Mem, Nodup, arith, leb→le, length, member, All, Option-cases, Mem_of_member,
  member_of_Mem, member_of_not-Mem,
}
use shade.Mpc.Batch.Defs.{
  NodeSignature, SignedMatchBatch, CommitteeNodeInfo, Crypto, verify_node_signature, threshold,
  check_signatures, enough, verify_signed_batch,
}

abbrev pub signers : List NodeSignature → List String
signers = map (λ s. s.signing_pubkey)

abbrev pub keys : List CommitteeNodeInfo → List String
keys = map (λ n. n.signing_pubkey)

module _ (c : Crypto) (expected : List String) (batch : SignedMatchBatch) where
  abbrev pub IsValid : NodeSignature → Type 0
  IsValid sig = verify_node_signature c batch.batch_id batch.matches sig ≡ true

  abbrev Passes : List String → List NodeSignature → Type 0
  Passes seen [] = Unit
  Passes seen (s ∷ sigs) =
      (member s.signing_pubkey expected ≡ true)
      × (member s.signing_pubkey seen ≡ false)
      × IsValid s
      × Passes (s.signing_pubkey ∷ seen) sigs

  abbrev seen_after : List String → List NodeSignature → List String
  seen_after seen [] = seen
  seen_after seen (s ∷ sigs) = seen_after (s.signing_pubkey ∷ seen) sigs

  length-seen_after :
      (seen : List String) (sigs : List NodeSignature)
      → length (seen_after seen sigs) ≡ length seen + length sigs
  length-seen_after seen [] = omega arith
  length-seen_after seen (s ∷ sigs) =
      omega (arith, length-seen_after (s.signing_pubkey ∷ seen) sigs)

  check-Passes :
      (seen : List String) (sigs : List NodeSignature) (r : List String)
      → check_signatures c expected batch seen sigs ≡ some r
      → Passes seen sigs × (r ≡ seen_after seen sigs)
  unfolding check_signatures
  check-Passes seen [] r e = (tt, ground arith)
  check-Passes seen (s ∷ sigs) r e =
      let ih = check-Passes (s.signing_pubkey ∷ seen) sigs r (ground arith) in
      ((ground arith, ground arith, ground arith, ih.0), ih.1)

  Passes-check :
      (seen : List String) (sigs : List NodeSignature)
      → Passes seen sigs
      → check_signatures c expected batch seen sigs ≡ some (seen_after seen sigs)
  unfolding check_signatures
  Passes-check seen [] h = refl
  Passes-check seen (s ∷ sigs) h = ground (arith, Passes-check (s.signing_pubkey ∷ seen) sigs h.3)

  -- What a batch needs apart from the number of its signatures.
  abbrev pub Sound : List NodeSignature → Type 0
  Sound sigs = All (λ s. Mem s.signing_pubkey expected × IsValid s) sigs × Nodup (signers sigs)

  Passes-avoids :
      (seen : List String) (sigs : List NodeSignature) (x : String)
      → Passes seen sigs
      → Mem x seen
      → ¬ (Mem x (signers sigs))
  Passes-avoids seen [] x h m k = not-mem-nil k
  Passes-avoids seen (s ∷ sigs) x h m k =
      Or.elim (λ p q. absurd p) (mem-cons.0 k)
        (λ e. cc (member_of_Mem x seen m, ap (λ y. member y seen) e))
        (Passes-avoids (s.signing_pubkey ∷ seen) sigs x h.3 (mem-cons_of_mem _ m))

  Passes-Sound : (seen : List String) (sigs : List NodeSignature) → Passes seen sigs → Sound sigs
  Passes-Sound seen [] h = (tt, Nodup-nil)
  Passes-Sound seen (s ∷ sigs) h =
      let ih = Passes-Sound (s.signing_pubkey ∷ seen) sigs h.3 in
      (
        ((Mem_of_member _ expected h.0, h.2), ih.0),
        Nodup-cons.1
            (Passes-avoids (s.signing_pubkey ∷ seen) sigs s.signing_pubkey h.3 mem-cons_self, ih.1),
      )

  Sound-Passes :
      (seen : List String) (sigs : List NodeSignature)
      → Sound sigs
      → ((x : String) → Mem x seen → ¬ (Mem x (signers sigs)))
      → Passes seen sigs
  Sound-Passes seen [] h apart = tt
  Sound-Passes seen (s ∷ sigs) h apart =
      let nd = Nodup-cons.0 h.1 in
      (
        member_of_Mem _ expected h.0.0.0,
        member_of_not-Mem _ seen (λ m. apart _ m mem-cons_self),
        h.0.0.1,
        Sound-Passes (s.signing_pubkey ∷ seen) sigs (h.0.1, nd.1)
            λ x m k.
              Or.elim (λ p q. absurd p) (mem-cons.0 m)
                (λ e. nd.0 (subst (λ y. Mem y (signers sigs)) e k))
                (λ m'. apart x m' (mem-cons_of_mem _ k)),
      )

-- `verifySignedBatch` returns true exactly when every signature of the batch is by a key of the
-- committee and verifies over the hash of the batch's id and matches, no key signed twice, and
-- at least ceil(2n/3) keys signed, for a committee list of length n.
pub verify_signed_batch_iff :
    (c : Crypto) (batch : SignedMatchBatch) (committee : List CommitteeNodeInfo)
    → (verify_signed_batch c batch committee ≡ true) ↔ (
        Sound c (keys committee) batch batch.signatures
        × (threshold (length committee) ≤ length batch.signatures))
unfolding verify_signed_batch
verify_signed_batch_iff c batch committee = (there, back)
  where
    result : Option (List String)
    result = check_signatures c (keys committee) batch [] batch.signatures

    there :
        enough committee result ≡ true
        → Sound c (keys committee) batch batch.signatures
          × (threshold (length committee) ≤ length batch.signatures)
    there e = elim (Option-cases result) [
      | inl refused ↦ absurd (ground (arith, ap (enough committee) refused))
      | inr (seen, checked) ↦
          let p = check-Passes c (keys committee) batch [] batch.signatures seen checked in
          (
            Passes-Sound c (keys committee) batch [] batch.signatures p.0,
            omega (
              arith,
              leb→le _ _ (sym (ap (enough committee) checked) ∙ e),
              ap (λ (xs : List String). length xs) p.1,
              length-seen_after c (keys committee) batch [] batch.signatures,
            ),
          )
    ]

    back :
        Sound c (keys committee) batch batch.signatures
          × (threshold (length committee) ≤ length batch.signatures)
        → enough committee result ≡ true
    back (sound, many) =
        let p =
          Sound-Passes c (keys committee) batch [] batch.signatures sound
            (λ x m. absurd (not-mem-nil m)) in
        ap (enough committee) (Passes-check c (keys committee) batch [] batch.signatures p)
        ∙ ground (arith, length-seen_after c (keys committee) batch [] batch.signatures)
