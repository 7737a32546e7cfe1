-- ===== src/Tls/Watcher/Coverage.antt =====
-- Which file events internal/tls/watcher.go takes for a change of the certificates.
use tlspxy.Common.{
  String, str_eq, eq_iff, eq_refl, true, false, List, [], ◌∷◌, ◌≡◌, arith, Bool-cases, inl, inr,
}
use tlspxy.Tls.CertStore.{CertStore}
use tlspxy.Tls.Watcher.{
  PathOps, FsEvent, absolute, entry_paths, absolute_paths, has, parent_dirs, relevant_event, watch,
}

has-absolute_paths :
    (ops : PathOps) (p : String) (paths : List String)
    → has p paths ≡ true
    → str_eq p "" ≡ false
    → has (absolute ops p) (absolute_paths ops paths) ≡ true
unfolding absolute_paths
has-absolute_paths ops p [] h ne = ground arith
has-absolute_paths ops p (q ∷ paths) h ne = elim (Bool-cases (str_eq q p)) [
  | inl same ↦ let e : q ≡ p = (eq_iff q p).0 same in rw (e, ne, eq_refl (absolute ops p))
  | inr other ↦ ground (arith, has-absolute_paths ops p paths)
]

has-parent_dirs :
    (ops : PathOps) (f : String) (files : List String)
    → has f files ≡ true
    → has (ops.dir f) (parent_dirs ops files) ≡ true
unfolding parent_dirs
has-parent_dirs ops f [] h = ground arith
has-parent_dirs ops f (g ∷ files) h = elim (Bool-cases (str_eq g f)) [
  | inl same ↦ let e : g ≡ f = (eq_iff g f).0 same in rw (e, eq_refl (ops.dir f))
  | inr other ↦ ground (arith, has-parent_dirs ops f files)
]

-- The paths that the store loads from.
abbrev pub store_paths : {C : Type 0} → CertStore C → List String
store_paths cs = cs.cert_path ∷ cs.key_path ∷ entry_paths cs.sni_entries

module _ {C : Type 0} (ops : PathOps) (cs : CertStore C) (p : String) (e : FsEvent) where
  -- Any event at a file that the store loads from, if its path is not empty, is relevant.
  pub relevant_event-file :
      has p (store_paths cs) ≡ true
      → str_eq p "" ≡ false
      → absolute ops e.name ≡ absolute ops p
      → relevant_event ops e (watch ops cs).watched_files (watch ops cs).dirs ≡ true
  unfolding relevant_event watch
  relevant_event-file h ne same = rw same (rw (has-absolute_paths ops p (store_paths cs) h ne))

  -- The creation of any name in the directory of such a file is relevant.
  pub relevant_event-create :
      has p (store_paths cs) ≡ true
      → str_eq p "" ≡ false
      → e.create ≡ true
      → ops.dir (absolute ops e.name) ≡ ops.dir (absolute ops p)
      → relevant_event ops e (watch ops cs).watched_files (watch ops cs).dirs ≡ true
  unfolding relevant_event watch
  relevant_event-create h ne made same =
      rw
        (
          made,
          same,
          has-parent_dirs ops (absolute ops p) (absolute_paths ops (store_paths cs))
              (has-absolute_paths ops p (store_paths cs) h ne),
        )
        (ground arith)
