-- ===== src/Client/Discovery.antt =====
-- src/clients/python/src/sir_client/registry.py: what `discover` learns.
use stupid_inference_router.Prelude.{
  String, true, false, not, ◌≡◌, sym, ap, subst, ◌∙◌, inl, inr, arith, In, Option, none, some, List,
  [], ◌∷◌, ◌==◌, str_eq, eq_iff, if_cases,
}
use stupid_inference_router.Prelude.Dict.{Dict, get, put, get-put}
use stupid_inference_router.Prelude.Text.{is_empty}
use stupid_inference_router.Client.Registry.{
  Registry, Host, Claimed, bare, is_other, claim_all, discover, go_on,
}

not_other : (o : Option String) (base u : String) → is_other o base ≡ false → o ≡ some u → u ≡ base
not_other none base u same h = cc
not_other (some claimed) base u same h = ground (arith, eq_iff claimed base)

-- A claim that is nobody else's changes no entry.
put-kept :
    (d : Dict String) (tag base other u : String)
    → is_other (get tag d) base ≡ false
    → get other d ≡ some u
    → get other (put tag base d) ≡ some u
put-kept d tag base other u free here =
    get-put other tag base d
    ∙ if_cases {A = Option String} (λ o. o ≡ some u) (str_eq tag other)
        (λ same.
          let at : tag ≡ other = (eq_iff tag other).0 same in
          let now : get tag d ≡ some u = cc in
          ap some (sym (not_other (get tag d) base u free now)))
        (λ elsewhere. here)

put-claimed : (d : Dict String) (tag base : String) → get tag (put tag base d) ≡ some base
put-claimed d tag base = get-put tag tag base d ∙ ground (arith, eq_iff tag tag)

-- What the registry was before holds, and so does what the cards say.
pub record IsClaimed (r : Registry) (base : String) (cards : List (Option String)) (r' : Registry)
    : Type 0 where
  pub kept : (tag url : String) → get tag r.endpoints ≡ some url → get tag r'.endpoints ≡ some url
  pub claimed :
      (tag : String) → In (some tag) cards → is_empty tag ≡ false → get tag r'.endpoints ≡ some base

abbrev Claims : Registry → String → List (Option String) → Claimed → Type 0
Claims r base cards (r', none) = IsClaimed r base cards r'
Claims r base cards (r', some refusal) = Unit

skip-Claims :
    (r : Registry) (base : String) (card : Option String) (cards : List (Option String))
    → ((tag : String) → some tag ≡ card → is_empty tag ≡ true)
    → (c : Claimed) → Claims r base cards c
    → Claims r base (card ∷ cards) c
skip-Claims r base card cards idle (r', none) d = record {
  kept = d.kept;
  claimed = λ tag listed named. elim listed [
    | inl same ↦ let no = idle tag same in cc
    | inr later ↦ d.claimed tag later named
  ];
}
skip-Claims r base card cards idle (r', some refusal) d = tt

take-Claims :
    (r : Registry) (base tag : String) (cards : List (Option String))
    → is_other (get tag r.endpoints) base ≡ false
    → (c : Claimed) → Claims (record r { endpoints = put tag base r.endpoints }) base cards c
    → Claims r base (some tag ∷ cards) c
take-Claims r base tag cards free (r', none) d = record {
  kept = λ other url here. d.kept other url (put-kept r.endpoints tag base other url free here);
  claimed = λ other listed named. elim listed [
    | inl same ↦
        let at : tag ≡ other = cc in
        subst (λ t. get t r'.endpoints ≡ some base) at
          (d.kept tag base (put-claimed r.endpoints tag base))
    | inr later ↦ d.claimed other later named
  ];
}
take-Claims r base tag cards free (r', some refusal) d = tt

claim_all-Claims :
    (r : Registry) (base : String) (cards : List (Option String))
    → Claims r base cards (claim_all r base cards)
unfolding claim_all
claim_all-Claims r base [] = record {
  kept = λ tag url here. here;
  claimed = λ tag listed. absurd listed;
}
claim_all-Claims r base (none ∷ cards) =
    skip-Claims r base none cards (λ tag same. cc) (claim_all r base cards)
      (claim_all-Claims r base cards)
claim_all-Claims r base (some tag ∷ cards) =
    if_cases {A = Claimed} (Claims r base (some tag ∷ cards)) (is_empty tag)
      (λ nameless.
        skip-Claims r base (some tag) cards
          (λ other same. let at : other ≡ tag = cc in ap is_empty at ∙ nameless)
          (claim_all r base cards) (claim_all-Claims r base cards))
      (λ named.
        if_cases {A = Claimed} (Claims r base (some tag ∷ cards))
          (is_other (get tag r.endpoints) base) (λ taken. tt)
          (λ free.
            let r1 = record r { endpoints = put tag base r.endpoints } in
            take-Claims r base tag cards free (claim_all r1 base cards)
              (claim_all-Claims r1 base cards)))

-- The registry after a discovery of these hosts.
pub record IsDiscovered (r : Registry) (hosts : List Host) (r' : Registry) : Type 0 where
  pub kept : (tag url : String) → get tag r.endpoints ≡ some url → get tag r'.endpoints ≡ some url
  pub found :
      (host : Host) (tag : String)
      → In host hosts
      → In (some tag) host.cards
      → is_empty tag ≡ false
      → get tag r'.endpoints ≡ some (bare host.base_url)

abbrev Finds : Registry → List Host → Claimed → Type 0
Finds r hosts (r', none) = IsDiscovered r hosts r'
Finds r hosts (r', some refusal) = Unit

go_on-Finds :
    (r : Registry) (host : Host) (hosts : List Host) (rest : Registry → Claimed)
    → ((r1 : Registry) → Finds r1 hosts (rest r1))
    → (c : Claimed) → Claims r (bare host.base_url) host.cards c
    → Finds r (host ∷ hosts) (go_on c rest)
go_on-Finds r host hosts rest finds (r1, some refusal) first = tt
go_on-Finds r host hosts rest finds (r1, none) first = ends (rest r1) (finds r1)
  where
    ends : (c : Claimed) → Finds r1 hosts c → Finds r (host ∷ hosts) c
    ends (r', some refusal) later = tt
    ends (r', none) later = record {
      kept = λ tag url here. later.kept tag url (first.kept tag url here);
      found = λ other tag listed card named. elim listed [
        | inl same ↦
            let cards : In (some tag) host.cards = subst (λ h. In (some tag) h.cards) same card in
            later.kept tag (bare host.base_url) (first.claimed tag cards named)
            ∙ ap (λ h. some (bare h.base_url)) (sym same)
        | inr among ↦ later.found other tag among card named
      ];
    }

discover-Finds : (r : Registry) (hosts : List Host) → Finds r hosts (discover r hosts)
unfolding discover
discover-Finds r [] = record {
  kept = λ tag url here. here;
  found = λ host tag listed. absurd listed;
}
discover-Finds r (host ∷ hosts) =
    if_cases {A = Claimed} (Finds r (host ∷ hosts)) (not (host.status == 200)) (λ bad. tt)
      (λ good.
        go_on-Finds r host hosts (λ r1. discover r1 hosts) (λ r1. discover-Finds r1 hosts) _
          (claim_all-Claims r (bare host.base_url) host.cards))

-- After a discovery without an error each tag that a host lists leads to that host, all hosts that list
-- a tag have the same address, and the earlier entries of the registry are as they were.
pub discover-IsDiscovered :
    (r r' : Registry) (hosts : List Host)
    → discover r hosts ≡ (r', none)
    → IsDiscovered r hosts r'
      × ((a b : Host) (tag : String)
          → In a hosts
          → In b hosts
          → In (some tag) a.cards
          → In (some tag) b.cards
          → is_empty tag ≡ false
          → bare a.base_url ≡ bare b.base_url)
discover-IsDiscovered r r' hosts done =
    let d : IsDiscovered r hosts r' = subst (Finds r hosts) done (discover-Finds r hosts) in
    (
      d,
      λ a b tag in_a in_b card_a card_b named.
          let from_a = d.found a tag in_a card_a named in
          let from_b = d.found b tag in_b card_b named in cc,
    )
