-- ===== src/Settlement/Tamper.antt =====
-- Tamper evidence of the settlement registry (`verify_registry`): the hash of the last entry binds the
-- whole chain.
use kry.Base.{
  ℕ, suc, ◌≡◌, refl, true, false, List, [], ◌∷◌, ◌++◌, arith, length, sym, subst, ◌∙◌, append_assoc,
}
use kry.Base.Split.{split_first, split_last}
use kry.Base.Results.{ok-injective, >>=-eq-ok, ok}
use kry.Base.Texts.{Text, text_eq_iff, has_code}
use kry.Double.{Double}
use kry.Settlement.Host.{float_text, Host, IsCollisionFree}
use kry.Settlement.Grants.{grants_payload}
use kry.Settlement.Entries.{lines_of, read_tip, Entry, Registry, registry_entries}
use kry.Settlement.Chain.{
  judge, Problem, is_nil, tip_problems, last_hash, entry_text, entry_digest, expected_hash,
  check_chain, genesis, verify_registry,
}
use kry.Settlement.Separable.{IsSeparable, entries_of-IsSeparable}

-- What an entry says: its party, its amount and the grants that it consumes.
abbrev pub content : Entry → Text × Double × Text
content e = (e.party, e.amount, grants_payload e.grants)

abbrev pub contents : List Entry → List (Text × Double × Text)
contents [] = []
contents (e ∷ es) = content e ∷ contents es

module _ (h : Host) (c : IsCollisionFree h) where
  -- The hashed text determines its four parts.
  entry_text_parts :
      (p p' party party' : Text) (a a' : Double) (g g' : Text)
      → has_code b':' p ≡ false
      → has_code b':' p' ≡ false
      → has_code b':' g ≡ false
      → has_code b':' g' ≡ false
      → entry_text h p party a g ≡ entry_text h p' party' a' g'
      → (p ≡ p') × (party ≡ party') × (a ≡ a') × (g ≡ g')
  unfolding entry_text
  entry_text_parts p p' party party' a a' g g' hp hp' hg hg' e =
      let outer =
        split_first b':' p p' (party ++ b':' ∷ (float_text h a ++ b':' ∷ g))
          (party' ++ b':' ∷ (float_text h a' ++ b':' ∷ g')) hp hp' e in
      let regroup = λ (x y z : Text). append_assoc x (b':' ∷ y) (b':' ∷ z) in
      let inner =
        split_last b':' (party ++ b':' ∷ float_text h a) (party' ++ b':' ∷ float_text h a') g g' hg
          hg'
          (regroup party (float_text h a) g
            ∙ outer.1
            ∙ sym (regroup party' (float_text h a') g')) in
      let fields =
        split_last b':' party party' (float_text h a) (float_text h a') (c.float_text_colon a)
          (c.float_text_colon a') inner.0 in
      (outer.0, fields.0, c.float_text_injective a a' fields.1, inner.1)

  -- Without a problem at the head, the recorded hash is the expected one.
  verified_head :
      (p : Text) (i : ℕ) (e : Entry) (es : List Entry)
      → (check_chain h p i (e ∷ es)).0 ≡ []
      → (e.entry_hash ≡ h.sha256 (entry_text h p e.party e.amount (grants_payload e.grants)))
        × ((check_chain h e.entry_hash (suc i) es).0 ≡ [])
  unfolding check_chain expected_hash entry_digest
  verified_head p i e es v = ground (
    arith,
    text_eq_iff e.entry_hash (h.sha256 (entry_text h p e.party e.amount (grants_payload e.grants))),
  )

  digest_colon :
      (p : Text) (e : Entry)
      → e.entry_hash ≡ h.sha256 (entry_text h p e.party e.amount (grants_payload e.grants))
      → has_code b':' e.entry_hash ≡ false
  digest_colon p e v = rw v (c.sha256_colon _)

  chain_binds :
      (p p' : Text) (i i' : ℕ) (es es' : List Entry)
      → has_code b':' p ≡ false
      → has_code b':' p' ≡ false
      → IsSeparable es
      → IsSeparable es'
      → (check_chain h p i es).0 ≡ []
      → (check_chain h p' i' es').0 ≡ []
      → length es ≡ length es'
      → (check_chain h p i es).1 ≡ (check_chain h p' i' es').1
      → (p ≡ p') × (contents es ≡ contents es')
  unfolding check_chain
  chain_binds p p' i i' [] [] hp hp' s s' v v' l e = (e, refl)
  chain_binds p p' i i' [] (e' ∷ es') hp hp' s s' v v' l e = absurd (omega arith)
  chain_binds p p' i i' (e ∷ es) [] hp hp' s s' v v' l q = absurd (omega arith)
  chain_binds p p' i i' (e ∷ es) (e' ∷ es') hp hp' s s' v v' l q =
      let hash = verified_head p i e es v in
      let hash' = verified_head p' i' e' es' v' in
      let rest =
        chain_binds e.entry_hash e'.entry_hash (suc i) (suc i') es es' (digest_colon p e hash.0)
          (digest_colon p' e' hash'.0) s.1 s'.1 hash.1 hash'.1 (omega arith) q in
      let texts = c.sha256_injective _ _ (sym hash.0 ∙ rest.0 ∙ hash'.0) in
      let parts =
        entry_text_parts p p' e.party e'.party e.amount e'.amount (grants_payload e.grants)
          (grants_payload e'.grants) hp hp' s.0 s'.0 texts in
      (parts.0, cc (parts.1, parts.2, parts.3, rest.1))

pub last_hash-check_chain :
    (h : Host) (p : Text) (i : ℕ) (es : List Entry) → (check_chain h p i es).1 ≡ last_hash p es
unfolding check_chain last_hash
last_hash-check_chain h p i [] = refl
last_hash-check_chain h p i (e ∷ es) = last_hash-check_chain h e.entry_hash (suc i) es

append-eq-nil : (ps qs : List Problem) → is_nil (ps ++ qs) ≡ true → (ps ≡ []) × (qs ≡ [])
append-eq-nil [] qs e = ground arith
append-eq-nil (p ∷ ps) qs e = cc

-- A registry that verifies has an unbroken chain and no problem with its checkpoint.
pub verify_registry_sound :
    (h : Host) (r : Registry) (es : List Entry) (ps : List Problem)
    → registry_entries r.file ≡ ok es
    → verify_registry h r ≡ ok (true, ps)
    → ((check_chain h genesis 1 es).0 ≡ [])
      × (tip_problems (length es) (check_chain h genesis 1 es).1 (read_tip r.tip) ≡ ok [])
unfolding verify_registry
verify_registry_sound h r es ps read v =
    let (qs, hq, done) =
      >>=-eq-ok (tip_problems (length es) (check_chain h genesis 1 es).1 (read_tip r.tip)) _
        (subst (λ x. judge h r.tip x ≡ ok (true, ps)) read v) in
    let (whole, fine) = append-eq-nil (check_chain h genesis 1 es).0 qs (cc (ok-injective done)) in
    (
      whole,
      subst (λ x. tip_problems (length es) (check_chain h genesis 1 es).1 (read_tip r.tip) ≡ ok x)
          fine hq,
    )

pub verify_registry-chain :
    (h : Host) (r : Registry) (es : List Entry) (ps : List Problem)
    → registry_entries r.file ≡ ok es
    → verify_registry h r ≡ ok (true, ps)
    → (check_chain h genesis 1 es).0 ≡ []
verify_registry-chain h r es ps read v = (verify_registry_sound h r es ps read v).0

module _ (h : Host) (c : IsCollisionFree h) where
  -- Two registries that both verify, have as many entries and end in the same hash record the same
  -- parties, amounts and grant payloads, entry by entry.
  pub registry_tamper_evident :
      (r r' : Registry) (es es' : List Entry) (ps ps' : List Problem)
      → registry_entries r.file ≡ ok es
      → registry_entries r'.file ≡ ok es'
      → verify_registry h r ≡ ok (true, ps)
      → verify_registry h r' ≡ ok (true, ps')
      → length es ≡ length es'
      → last_hash genesis es ≡ last_hash genesis es'
      → contents es ≡ contents es'
  unfolding registry_entries
  registry_tamper_evident r r' es es' ps ps' read read' v v' l e =
      (chain_binds h c genesis genesis 1 1 es es' (unfold has_code genesis in refl)
        (unfold has_code genesis in refl) (entries_of-IsSeparable (lines_of r.file) es read)
        (entries_of-IsSeparable (lines_of r'.file) es' read')
        (verify_registry-chain h r es ps read v) (verify_registry-chain h r' es' ps' read' v') l
        (last_hash-check_chain h genesis 1 es ∙ e ∙ sym (last_hash-check_chain h genesis 1 es'))).1
