-- ===== src/Dpkg/Filter.antt =====
-- Which packages dpkg_parser.py reports.
use debcraft.Prelude.{
  ℕ, ◌≡◌, ◌⊎◌, inl, inr, refl, sym, true, Bool-cases, Option, none, some, List, ◌∷◌, ◌||◌,
}
use debcraft.Prelude.Text.{Text, codes, text_eq, text_eq→eq}
use debcraft.Prelude.Strip.{strip}
use debcraft.Dpkg.{
  DpkgStanza, IdentifiedPackage, Classified, get_field, split_words, identified, classify_state,
  classify_status, classify_installed, classify_named, classify_package,
}

-- The desired action and the current state that a status gives.
abbrev pub Status : Text → Text → Text → Type 0
Status status action state =
    (flag : Text) × (more : List Text) × (split_words (strip status) ≡ action ∷ flag ∷ state ∷ more)

-- Why the package `p` may be reported for a stanza.
pub record IsReported (stanza : DpkgStanza) (p : IdentifiedPackage) : Type 0 where
  pub status_field : Text
  pub action : Text
  pub named : get_field stanza (codes "Package") ≡ some p.name
  pub versioned : get_field stanza (codes "Version") ≡ some p.version
  pub has_status : get_field stanza (codes "Status") ≡ some status_field
  pub words : Status status_field action p.status
  pub wanted : (action ≡ codes "install") ⊎ (action ≡ codes "hold")
  pub present : (p.status ≡ codes "installed") ⊎ (p.status ≡ codes "config-files")

-- What `classify_state` may answer for a package.
abbrev StateAnswer : Text → Text → Text → Text → Classified → Type 0
StateAnswer name version action state (none, d) = Unit
StateAnswer name version action state (some p, d) =
    (p.name ≡ name)
    × (p.version ≡ version)
    × (p.status ≡ state)
    × ((action ≡ codes "install") ⊎ (action ≡ codes "hold"))
    × ((state ≡ codes "installed") ⊎ (state ≡ codes "config-files"))
    × (d ≡ none)

classify_state-answer :
    (stanza : DpkgStanza) (index : ℕ) (name version action state : Text)
    → StateAnswer name version action state (classify_state stanza index name version action state)
unfolding classify_state identified
classify_state-answer stanza index name version action state =
    elim (Bool-cases (text_eq action (codes "deinstall") || text_eq action (codes "purge"))) [
      | inl e ↦ rw e tt
      | inr e ↦
          elim (Bool-cases (text_eq action (codes "install") || text_eq action (codes "hold"))) [
            | inr f ↦ rw (e, f) tt
            | inl f ↦ elim (Bool-cases (text_eq state (codes "installed"))) [
              | inl g ↦
                  rw (e, f, g)
                    (
                      refl,
                      refl,
                      sym (text_eq→eq state (codes "installed") g),
                      wanted f,
                      inl (text_eq→eq state (codes "installed") g),
                      refl,
                    )
              | inr g ↦ elim (Bool-cases (text_eq state (codes "config-files"))) [
                | inl k ↦
                    rw (e, f, g, k)
                      (
                        refl,
                        refl,
                        sym (text_eq→eq state (codes "config-files") k),
                        wanted f,
                        inr (text_eq→eq state (codes "config-files") k),
                        refl,
                      )
                | inr k ↦ rw (e, f, g, k) tt
              ]
            ]
          ]
    ]
  where
    wanted :
        (text_eq action (codes "install") || text_eq action (codes "hold")) ≡ true
        → (action ≡ codes "install") ⊎ (action ≡ codes "hold")
    wanted f = elim (Bool-cases (text_eq action (codes "install"))) [
      | inl i ↦ inl (text_eq→eq action (codes "install") i)
      | inr i ↦ inr (text_eq→eq action (codes "hold") (rw i at f))
    ]

-- A stanza answers with a reason for its package, or with no package.
abbrev Answer : DpkgStanza → Classified → Type 0
Answer stanza (none, d) = Unit
Answer stanza (some p, d) = IsReported stanza p × (d ≡ none)

Answer-of_state :
    (stanza : DpkgStanza) (name version status action flag state : Text) (more : List Text)
    (c : Classified)
    → get_field stanza (codes "Package") ≡ some name
    → get_field stanza (codes "Version") ≡ some version
    → get_field stanza (codes "Status") ≡ some status
    → split_words (strip status) ≡ action ∷ flag ∷ state ∷ more
    → StateAnswer name version action state c
    → Answer stanza c
Answer-of_state stanza name version status action flag state more (none, d) n v s w a = tt
Answer-of_state stanza name version status action flag state more (some p, d) n v s w a = (
  record {
    status_field = status;
    action = action;
    named = cc;
    versioned = cc;
    has_status = s;
    words = (flag, more, cc);
    wanted = a.3;
    present = rw a.2 (a.4);
  },
  a.5,
)

classify_status-Answer :
    (stanza : DpkgStanza) (index : ℕ) (name version status : Text) (words : List Text)
    → get_field stanza (codes "Package") ≡ some name
    → get_field stanza (codes "Version") ≡ some version
    → get_field stanza (codes "Status") ≡ some status
    → split_words (strip status) ≡ words
    → Answer stanza (classify_status stanza index name version status words)
unfolding classify_status
classify_status-Answer stanza index name version status (action ∷ flag ∷ state ∷ more) n v s w =
    Answer-of_state stanza name version status action flag state more _ n v s w
      (classify_state-answer stanza index name version action state)
classify_status-Answer stanza index name version status _ n v s w = tt

classify_installed-Answer :
    (stanza : DpkgStanza) (index : ℕ) (name version : Text) (status : Option Text)
    → get_field stanza (codes "Package") ≡ some name
    → get_field stanza (codes "Version") ≡ some version
    → get_field stanza (codes "Status") ≡ status
    → Answer stanza (classify_installed stanza index name version status)
unfolding classify_installed
classify_installed-Answer stanza index name version none n v s = tt
classify_installed-Answer stanza index name version (some status) n v s =
    classify_status-Answer stanza index name version status (split_words (strip status)) n v s refl

classify_named-Answer :
    (stanza : DpkgStanza) (index : ℕ) (name version : Option Text)
    → get_field stanza (codes "Package") ≡ name
    → get_field stanza (codes "Version") ≡ version
    → Answer stanza (classify_named stanza index name version)
unfolding classify_named
classify_named-Answer stanza index (some name) (some version) n v =
    classify_installed-Answer stanza index name version _ n v refl
classify_named-Answer stanza index _ _ n v = tt

-- A package is reported only for a stanza with a package name, a version and a status of which the
-- first word is `install` or `hold` and the third is `installed` or `config-files`; the package
-- has that name, version and state, and no diagnostic comes with it.
pub classify_package-IsReported :
    (stanza : DpkgStanza) (index : ℕ) (p : IdentifiedPackage)
    → (classify_package stanza index).0 ≡ some p
    → IsReported stanza p × ((classify_package stanza index).1 ≡ none)
unfolding classify_package
classify_package-IsReported stanza index p h =
    by_answer _ (classify_named-Answer stanza index _ _ refl refl) h
  where
    by_answer :
        (c : Classified) → Answer stanza c → c.0 ≡ some p → IsReported stanza p × (c.1 ≡ none)
    by_answer (none, d) a e = cc
    by_answer (some q, d) a e = let k : q ≡ p = cc in rw k at a

-- Conversely such a stanza is reported.
pub classify_package-reports :
    (stanza : DpkgStanza) (index : ℕ) (name version status action state : Text)
    → get_field stanza (codes "Package") ≡ some name
    → get_field stanza (codes "Version") ≡ some version
    → get_field stanza (codes "Status") ≡ some status
    → Status status action state
    → (action ≡ codes "install") ⊎ (action ≡ codes "hold")
    → (state ≡ codes "installed") ⊎ (state ≡ codes "config-files")
    → classify_package stanza index ≡ (some (identified stanza name version state), none)
unfolding classify_package classify_named classify_installed classify_status classify_state
classify_package-reports stanza index name version status action state n v s (flag, more, w) a t =
    rw (n, v, s, w) (by_words a t)
  where
    by_words :
        (action ≡ codes "install") ⊎ (action ≡ codes "hold")
        → (state ≡ codes "installed") ⊎ (state ≡ codes "config-files")
        → classify_state stanza index name version action state
          ≡ (some (identified stanza name version state), none)
    by_words (inl e) (inl f) = rw (e, f)
    by_words (inl e) (inr f) = rw (e, f)
    by_words (inr e) (inl f) = rw (e, f)
    by_words (inr e) (inr f) = rw (e, f)
