-- ===== src/Retrieve/Exact.antt =====
-- `retrieve_candidates` (src/retrieve.cc) against a filter over all campaigns of the store.
use rtb_engine.Base.{
  ℕ, suc, ◌≡◌, refl, sym, ap, ◌∙◌, ◌⊎◌, inl, inr, Bool, true, false, List, [], ◌∷◌, ◌++◌, none,
  some, map, arith, if◌then◌else◌, leb, length, keep, get_elem?, length-append, Bool-cases,
  Option-cases,
}
use mathlib.Core.List.{append_assoc}
use mathlib.Core.Bool.{false≢true}
use rtb_engine.Types.{
  RequestContext, is_eligible, CampaignRecord, CampaignStoreSnapshot, CampaignView,
}
use rtb_engine.Store.{find_bucket}
use rtb_engine.Store.Index.{
  bucket, bucket-none, bucket-some, positions, in_country, in_slot, IsIndexed,
}
use rtb_engine.Retrieve.{matches_request, choose_seed_bucket, view_of, collect, retrieve_candidates}

get_elem?-append_here {ℓ} :
    {A : Type ℓ} (xs : List A) (y : A) (ys : List A) → get_elem? (xs ++ y ∷ ys) (length xs) ≡ some y
get_elem?-append_here [] y ys = refl
get_elem?-append_here (x ∷ xs) y ys = get_elem?-append_here xs y ys

module _ {F : Type 0} (s : CampaignStoreSnapshot F) (context : RequestContext) where
  abbrev pub matching : List (CampaignView F)
  matching = map (view_of s) (keep (matches_request context) s.campaigns)

  module _ (p : CampaignRecord F → Bool)
      (implied : (c : CampaignRecord F) → matches_request context c ≡ true → p c ≡ true) where
    collect_hit :
        (i : ℕ) (c : CampaignRecord F) (rest : List ℕ)
        → get_elem? s.campaigns i ≡ some c
        → collect s context (i ∷ rest) ≡ (
            if matches_request context c
            then view_of s c ∷ collect s context rest
            else collect s context rest)
    unfolding collect
    collect_hit i c rest e = ground arith

    pick :
        (c : CampaignRecord F) (cs : List (CampaignRecord F)) (views : List (CampaignView F))
        → views ≡ map (view_of s) (keep (matches_request context) cs)
        → (if matches_request context c then view_of s c ∷ views else views)
          ≡ map (view_of s) (keep (matches_request context) (c ∷ cs))
    pick c cs views h = elim (Bool-cases (matches_request context c)) [
      | inl e ↦ rw e (ap (◌∷◌ (view_of s c)) h)
      | inr e ↦ rw e h
    ]

    skip :
        (c : CampaignRecord F) (cs : List (CampaignRecord F))
        → p c ≡ false
        → map (view_of s) (keep (matches_request context) cs)
          ≡ map (view_of s) (keep (matches_request context) (c ∷ cs))
    skip c cs miss = elim (Bool-cases (matches_request context c)) [
      | inl e ↦ absurd (false≢true (sym miss ∙ implied c e))
      | inr e ↦ rw e refl
    ]

    collect_from :
        (before cs : List (CampaignRecord F))
        → s.campaigns ≡ before ++ cs
        → collect s context (positions p (length before) cs)
          ≡ map (view_of s) (keep (matches_request context) cs)
    unfolding collect
    collect_from before [] e = refl
    collect_from before (c ∷ cs) e =
        let later : collect s context (positions p (suc (length before)) cs)
            ≡ map (view_of s) (keep (matches_request context) cs) =
          ap (λ n. collect s context (positions p n cs))
            (let grown : suc (length before) ≡ length (before ++ c ∷ []) =
                omega (arith, length-append before (c ∷ [])) in
              grown)
          ∙ collect_from (before ++ c ∷ []) cs (e ∙ sym (append_assoc before (c ∷ []) cs)) in
        elim (Bool-cases (p c)) [
          | inl hit ↦
              ap
                (λ (t : Bool). collect s context (
                  if t
                  then length before ∷ positions p (suc (length before)) cs
                  else positions p (suc (length before)) cs))
                hit
              ∙ collect_hit (length before) c _
                  (ap (λ l. get_elem? l (length before)) e ∙ get_elem?-append_here before c cs)
              ∙ pick c cs _ later
          | inr miss ↦
              ap
                (λ (t : Bool). collect s context (
                  if t
                  then length before ∷ positions p (suc (length before)) cs
                  else positions p (suc (length before)) cs))
                miss
              ∙ later
              ∙ skip c cs miss
        ]

    -- What the loop collects from the positions of a condition that every match meets.
    collect-positions : collect s context (positions p 0 s.campaigns) ≡ matching
    collect-positions = collect_from [] s.campaigns refl

  match_country :
      (c : CampaignRecord F)
      → matches_request context c ≡ true
      → in_country context.country_key.value c ≡ true
  unfolding matches_request
  match_country c h = ground arith

  match_slot :
      (c : CampaignRecord F)
      → matches_request context c ≡ true
      → in_slot context.ad_slot_key.value c ≡ true
  unfolding matches_request
  match_slot c h = ground arith

  module _ (v : IsIndexed s) where
    by_country :
        collect s context (bucket context.country_key.value s.campaigns_by_country) ≡ matching
    by_country =
        ap (collect s context) (v.by_country context.country_key.value)
        ∙ collect-positions (in_country context.country_key.value) match_country

    by_slot : collect s context (bucket context.ad_slot_key.value s.campaigns_by_ad_slot) ≡ matching
    by_slot =
        ap (collect s context) (v.by_slot context.ad_slot_key.value)
        ∙ collect-positions (in_slot context.ad_slot_key.value) match_slot

    -- Both indexes lead to the matching campaigns, also where one of them lacks the key.
    seed_country :
        (b : List ℕ)
        → find_bucket context.country_key.value s.campaigns_by_country ≡ some b
        → collect s context b ≡ matching
    seed_country b e = ap (collect s context) (sym (bucket-some _ _ b e)) ∙ by_country

    seed_slot :
        (b : List ℕ)
        → find_bucket context.ad_slot_key.value s.campaigns_by_ad_slot ≡ some b
        → collect s context b ≡ matching
    seed_slot b e = ap (collect s context) (sym (bucket-some _ _ b e)) ∙ by_slot

    no_country : find_bucket context.country_key.value s.campaigns_by_country ≡ none → [] ≡ matching
    unfolding collect
    no_country e = ap (collect s context) (sym (bucket-none _ _ e)) ∙ by_country

    no_slot : find_bucket context.ad_slot_key.value s.campaigns_by_ad_slot ≡ none → [] ≡ matching
    unfolding collect
    no_slot e = ap (collect s context) (sym (bucket-none _ _ e)) ∙ by_slot

    retrieve_none :
        is_eligible context ≡ true
        → choose_seed_bucket s context ≡ none
        → retrieve_candidates s context ≡ []
    unfolding retrieve_candidates
    retrieve_none e h = ground arith

    retrieve_some :
        (b : List ℕ)
        → is_eligible context ≡ true
        → choose_seed_bucket s context ≡ some b
        → retrieve_candidates s context ≡ collect s context b
    unfolding retrieve_candidates
    retrieve_some b e h = ground arith

    seed_missing :
        (find_bucket context.country_key.value s.campaigns_by_country ≡ none)
          ⊎ (find_bucket context.ad_slot_key.value s.campaigns_by_ad_slot ≡ none)
        → choose_seed_bucket s context ≡ none
    unfolding choose_seed_bucket
    seed_missing h = ground arith

    seed_smaller :
        (b c : List ℕ)
        → find_bucket context.country_key.value s.campaigns_by_country ≡ some b
        → find_bucket context.ad_slot_key.value s.campaigns_by_ad_slot ≡ some c
        → choose_seed_bucket s context ≡ (if leb (length b) (length c) then some b else some c)
    unfolding choose_seed_bucket
    seed_smaller b c e f = ground arith

    eligible_exact : is_eligible context ≡ true → retrieve_candidates s context ≡ matching
    eligible_exact e =
        elim (Option-cases (find_bucket context.country_key.value s.campaigns_by_country)) [
          | inl n ↦ retrieve_none e (seed_missing (inl n)) ∙ no_country n
          | inr (b, f) ↦
              elim (Option-cases (find_bucket context.ad_slot_key.value s.campaigns_by_ad_slot)) [
                | inl n ↦ retrieve_none e (seed_missing (inr n)) ∙ no_slot n
                | inr (c, g) ↦ elim (Bool-cases (leb (length b) (length c))) [
                  | inl less ↦
                      retrieve_some b e (
                        seed_smaller b c f g ∙ ap (λ (t : Bool). if t then some b else some c) less)
                      ∙ seed_country b f
                  | inr more ↦
                      retrieve_some c e (
                        seed_smaller b c f g ∙ ap (λ (t : Bool). if t then some b else some c) more)
                      ∙ seed_slot c g
                ]
              ]
        ]

    -- On a store with exact indexes, the candidates for an eligible request are exactly the
    -- matching campaigns of the store, each once, in the order of the file, with their creatives,
    -- whichever bucket the search starts from; for another request there are none.
    pub retrieve_candidates-exact :
        retrieve_candidates s context ≡ (if is_eligible context then matching else [])
    unfolding retrieve_candidates
    retrieve_candidates-exact = elim (Bool-cases (is_eligible context)) [
      | inl e ↦ eligible_exact e ∙ ap (λ (t : Bool). if t then matching else []) (sym e)
      | inr e ↦ rw e refl
    ]
