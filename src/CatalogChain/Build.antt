-- ===== src/CatalogChain/Build.antt =====
-- `New`: the sources that are configured, in the order given, all of one domain.
use loon_site.Prelude.{
  ◌<◌, ◌≡◌, refl, sym, subst, ◌∙◌, Bool, true, false, ◌||◌, Option, none, some, List, [], ◌∷◌, ◌++◌,
  length, map, append-nil, append_assoc, ◌==◌, if◌then◌else◌, arith, Bool-cases, inl, inr, lookup,
  All, All-append,
}
use loon_site.Prelude.Bytes.{Bytes, bytes_eq, bytes_beq_iff}
use loon_site.CatalogChain.{Source, Chain}

-- `(nil, err)`, `(nil, nil)` and `(c, nil)`.
pub data Built (Entry : Type 0) : Type 0 where
  wrong_domain : Bytes → Built Entry
  nothing : Built Entry
  built : Chain Entry → Built Entry

module _ {Entry : Type 0} where
  abbrev no_sources : List (Source Entry) → Bool
  no_sources [] = true
  no_sources (src ∷ srcs) = false

  -- `c.sources = append(c.sources, src)`, and the domain of the first.
  add_source : Bytes → Source Entry → Chain Entry → Chain Entry
  add_source name src c = record c {
    domain = if no_sources c.sources then src.domain_key else c.domain;
    sources = c.sources ++ src ∷ [];
    names = c.names ++ name ∷ [];
  }

  finish : Chain Entry → Built Entry
  finish c = if no_sources c.sources then nothing else built c

  -- A nil source in the map is an absent one.
  build_loop : List (Bytes × Option (Source Entry)) → List Bytes → Chain Entry → Built Entry
  unfolding add_source finish
  build_loop named [] c = finish c
  build_loop named (name ∷ order) c = elim (lookup name named) [
    | none ↦ build_loop named order c
    | some none ↦ build_loop named order c
    | some (some src) ↦
        let rest = build_loop named order (add_source name src c) in
        if no_sources c.sources || src.domain_key == c.domain then rest else wrong_domain name
  ]

  abbrev empty_chain : Chain Entry
  empty_chain = record {
    domain = [];
    sources = [];
    names = [];
    min_sim = record { num = 0; den = 1 };
  }

  unfoldable pub new_chain : List (Bytes × Option (Source Entry)) → List Bytes → Built Entry
  unfolding build_loop
  new_chain named order = build_loop named order empty_chain

  abbrev with_source :
      Bytes
      → Option (Option (Source Entry))
      → List (Bytes × Source Entry)
      → List (Bytes × Source Entry)
  with_source name none rest = rest
  with_source name (some none) rest = rest
  with_source name (some (some src)) rest = (name, src) ∷ rest

  -- The configured sources with their names, in the order given.
  abbrev pub configured :
      List (Bytes × Option (Source Entry)) → List Bytes → List (Bytes × Source Entry)
  configured named [] = []
  configured named (name ∷ order) = with_source name (lookup name named) (configured named order)

  abbrev pub OneDomain : Chain Entry → Type 0
  OneDomain c = All (λ src. src.domain_key ≡ c.domain) c.sources

  -- What a chain is built of.
  abbrev Extends : Chain Entry → List (Bytes × Source Entry) → Chain Entry → Type 0
  Extends c more d =
      OneDomain d
      × (d.sources ≡ c.sources ++ map (λ e. e.1) more)
      × (d.names ≡ c.names ++ map (λ e. e.0) more)
      × (0 < length d.sources)

  no_sources-nil : (srcs : List (Source Entry)) → no_sources srcs ≡ true → srcs ≡ []
  no_sources-nil [] h = refl
  no_sources-nil (src ∷ srcs) h = cc

  no_sources-pos : (srcs : List (Source Entry)) → no_sources srcs ≡ false → 0 < length srcs
  no_sources-pos [] h = absurd (cc)
  no_sources-pos (src ∷ srcs) h = omega arith

  add_source-OneDomain :
      (name : Bytes) (src : Source Entry) (c : Chain Entry)
      → OneDomain c
      → (no_sources c.sources || src.domain_key == c.domain) ≡ true
      → OneDomain (add_source name src c)
  unfolding add_source
  add_source-OneDomain name src c one fits = elim (Bool-cases (no_sources c.sources)) [
    | inl first ↦ rw (no_sources-nil c.sources first) (refl, tt)
    | inr later ↦
        let same : src.domain_key ≡ c.domain =
          ground (arith, bytes_beq_iff src.domain_key c.domain) in
        let stays : (add_source name src c).domain ≡ c.domain = ground arith in
        subst (λ key. All (λ s. s.domain_key ≡ key) (c.sources ++ src ∷ [])) (sym stays)
          (All-append (λ s. s.domain_key ≡ c.domain) c.sources (src ∷ []) one (same, tt))
  ]

  build_step-Extends :
      (named : List (Bytes × Option (Source Entry))) (name : Bytes) (order : List Bytes)
      (c d : Chain Entry) (found : Option (Option (Source Entry)))
      → lookup name named ≡ found
      → ((e : Chain Entry)
          → OneDomain e
          → build_loop named order e ≡ built d
          → Extends e (configured named order) d)
      → OneDomain c
      → build_loop named (name ∷ order) c ≡ built d
      → Extends c (configured named (name ∷ order)) d
  unfolding build_loop
  build_step-Extends named name order c d none e ih one h =
      rw e (ih c one (rw (e, build_loop) at h))
  build_step-Extends named name order c d (some none) e ih one h =
      rw e (ih c one (rw (e, build_loop) at h))
  build_step-Extends named name order c d (some (some src)) e ih one h =
      let fits : (no_sources c.sources || src.domain_key == c.domain) ≡ true = ground arith in
      let rest : build_loop named order (add_source name src c) ≡ built d = ground arith in
      let (one', sources, names, pos) =
        ih (add_source name src c) (add_source-OneDomain name src c one fits) rest in
      rw e (
        one',
        sources ∙ unfold add_source in append_assoc c.sources (src ∷ []) _,
        names ∙ unfold add_source in append_assoc c.names (name ∷ []) _,
        pos,
      )

  build_loop-Extends :
      (named : List (Bytes × Option (Source Entry))) (order : List Bytes) (c d : Chain Entry)
      → OneDomain c
      → build_loop named order c ≡ built d
      → Extends c (configured named order) d
  unfolding build_loop
  build_loop-Extends named [] c d one h = elim (Bool-cases (no_sources c.sources)) [
    | inl first ↦ absurd (ground arith)
    | inr later ↦
        let same : c ≡ d = ground arith in
        let pos = no_sources-pos c.sources later in
        rw (← same) (one, sym (append-nil c.sources), sym (append-nil c.names), pos)
  ]
  build_loop-Extends named (name ∷ order) c d one h =
      build_step-Extends named name order c d (lookup name named) refl
        (λ e. build_loop-Extends named order e d) one h

  -- A chain that is built holds the configured sources and their names in the order given, at least
  -- one of them, and all serve its domain.
  pub new_chain_sound :
      (named : List (Bytes × Option (Source Entry))) (order : List Bytes) (c : Chain Entry)
      → new_chain named order ≡ built c
      → OneDomain c
        × (c.sources ≡ map (λ e. e.1) (configured named order))
        × (c.names ≡ map (λ e. e.0) (configured named order))
        × (0 < length c.sources)
  unfolding new_chain
  new_chain_sound named order c h = build_loop-Extends named order empty_chain c tt h
