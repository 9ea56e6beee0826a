-- ===== src/Verifier/Sources.antt =====
-- src/qmt_execution_core/verifier.py: the digest of the protected sources. SHA-256, the file system
-- and the resolution of paths are parameters; a path is its text.
use Prim.Native.String.{◌++◌ as ◌+++◌}
use qmt_execution_core.Common.{
  ℕ, ◌≡◌, refl, ◌∙◌, ◌==◌, Bool, true, false, not, ◌&&◌, String, Option, none, some, List, [], ◌∷◌,
  ◌++◌, code_points, arith, if◌then◌else◌, Bool-cases, inl, inr, ap,
}
use qmt_execution_core.Errors.{Result, ok, err, ◌>>=◌, ◌>>◌, raise_if, os_error}

-- `PROTECTED_EXECUTION_SOURCES`
abbrev pub protected_execution_sources : List String
protected_execution_sources =
    "domain.py" ∷ "exceptions.py" ∷ "state_machine.py" ∷ "ports.py" ∷ "guards.py" ∷ "event_queue.py"
    ∷ "journal.py" ∷ "mutex.py" ∷ "recovery.py" ∷ "session.py" ∷ "finality.py" ∷ "coordination.py"
    ∷ "coordinated_session.py" ∷ "authority.py" ∷ "formal.py" ∷ "verifier.py" ∷ "miniqmt/status.py"
    ∷ "miniqmt/adapter.py" ∷ "miniqmt/callbacks.py" ∷ "miniqmt/binding.py"
    ∷ "miniqmt/runtime_gate.py" ∷ "miniqmt/session_id.py" ∷ "miniqmt/runtime.py" ∷ []

-- What the functions call.
pub record SourceFiles : Type 0 where
  pub is_file : String → Bool
  pub read_bytes : String → Result (List ℕ)
  pub resolve_path : String → String
  pub own_folder : String

-- `replace(b"\\r\\n", b"\\n")`
unfoldable pub replace_crlf : List ℕ → List ℕ
replace_crlf [] = []
replace_crlf (c ∷ []) = c ∷ []
replace_crlf (c ∷ d ∷ s) =
    let rest = replace_crlf (d ∷ s) in
    let skipped = replace_crlf s in if c == 13 && d == 10 then 10 ∷ skipped else c ∷ rest

-- `replace(b"\\r", b"\\n")`
unfoldable pub replace_cr : List ℕ → List ℕ
replace_cr [] = []
replace_cr (c ∷ s) = (if c == 13 then 10 else c) ∷ replace_cr s

-- `root / relative`
abbrev pub join : String → String → String
join root relative = root +++ ("/" +++ relative)

module _ (files : SourceFiles) where
  open files use {is_file, read_bytes, resolve_path, own_folder}

  abbrev pub is_package : String → Bool
  is_package folder = is_file (join folder "verifier.py") && is_file (join folder "domain.py")

  -- `for candidate in candidates`
  unfoldable pub first_package : List String → Result String
  first_package [] = err os_error
  first_package (candidate ∷ rest) =
      let later = first_package rest in if is_package candidate then ok candidate else later

  unfoldable pub resolve_package_root : Option String → Result String
  resolve_package_root none = ok own_folder
  resolve_package_root (some source_root) =
      let root = resolve_path source_root in
      first_package
        (join (join root "src") "qmt_execution_core" ∷ join root "qmt_execution_core" ∷ root ∷ [])

  -- the bytes of one source: its canonical name and its text, each ended by a zero
  unfoldable pub source_bytes : (root relative : String) → Result (List ℕ)
  source_bytes root relative = do
    raise_if (not (is_file (join root relative))) os_error
    text ← read_bytes (join root relative)
    ok (
        code_points (join "qmt_execution_core" relative)
        ++ (0 ∷ replace_cr (replace_crlf text) ++ (0 ∷ [])))

  -- `for relative in PROTECTED_EXECUTION_SOURCES`
  unfoldable pub all_bytes : String → List String → Result (List ℕ)
  all_bytes root [] = ok []
  all_bytes root (relative ∷ rest) = do
    these ← source_bytes root relative
    others ← all_bytes root rest
    ok (these ++ others)

  unfoldable pub execution_source_sha256 : (List ℕ → String) → Option String → Result String
  execution_source_sha256 sha256 source_root = do
    root ← resolve_package_root source_root
    bytes ← all_bytes root protected_execution_sources
    ok (sha256 bytes)

-- a line end as Windows writes it
abbrev pub to_crlf : List ℕ → List ℕ
to_crlf [] = []
to_crlf (c ∷ s) = if c == 10 then 13 ∷ 10 ∷ to_crlf s else c ∷ to_crlf s

abbrev pub has_cr : List ℕ → Bool
has_cr [] = false
has_cr (c ∷ s) = if c == 13 then true else has_cr s

skip_other : (c : ℕ) (s : List ℕ) → (c == 13) ≡ false → replace_crlf (c ∷ s) ≡ c ∷ replace_crlf s
unfolding replace_crlf
skip_other c [] h = refl
skip_other c (d ∷ s) h = rw h refl

no_cr_here :
    (c : ℕ) (s : List ℕ) → has_cr (c ∷ s) ≡ false → ((c == 13) ≡ false) × (has_cr s ≡ false)
no_cr_here c s h = ground arith

no_crlf : (s : List ℕ) → has_cr s ≡ false → replace_crlf s ≡ s
unfolding replace_crlf
no_crlf [] h = refl
no_crlf (c ∷ s) h =
    let (p, q) = no_cr_here c s h in skip_other c s p ∙ ap (λ t. c ∷ t) (no_crlf s q)

crlf_undone : (s : List ℕ) → has_cr s ≡ false → replace_crlf (to_crlf s) ≡ s
unfolding replace_crlf
crlf_undone [] h = refl
crlf_undone (c ∷ s) h =
    let (p, q) = no_cr_here c s h in
    elim (Bool-cases (c == 10)) [
      | inl newline ↦
          let ten : 10 ≡ c = ground arith in rw newline (rw (crlf_undone s q) (ap (λ n. n ∷ s) ten))
      | inr other ↦ rw other (skip_other c (to_crlf s) p ∙ ap (λ t. c ∷ t) (crlf_undone s q))
    ]

abbrev read_with_crlf : Result (List ℕ) → Result (List ℕ)
read_with_crlf (err e) = err e
read_with_crlf (ok text) = ok (to_crlf text)

-- the same files as Windows checks them out
abbrev pub with_crlf : SourceFiles → SourceFiles
with_crlf files = record files { read_bytes = λ path. read_with_crlf (files.read_bytes path) }

module _ (files : SourceFiles)
    (unix : (path : String) (text : List ℕ)
      → files.read_bytes path ≡ ok text
      → has_cr text ≡ false) where
  same_text :
      (answer : Result (List ℕ)) (rest : List ℕ → Result (List ℕ))
      → ((text : List ℕ) → answer ≡ ok text → has_cr text ≡ false)
      → (read_with_crlf answer >>= λ text. rest (replace_cr (replace_crlf text)))
        ≡ (answer >>= λ text. rest (replace_cr (replace_crlf text)))
  same_text (err e) rest h = refl
  same_text (ok text) rest h =
      let clean = h text refl in rw (crlf_undone text clean, no_crlf text clean) refl

  same_source :
      (root relative : String)
      → source_bytes (with_crlf files) root relative ≡ source_bytes files root relative
  unfolding source_bytes
  same_source root relative = elim (Bool-cases (files.is_file (join root relative))) [
    | inr missing ↦ rw missing refl
    | inl there ↦ rw there (
        same_text (files.read_bytes (join root relative))
          (λ text. ok (code_points (join "qmt_execution_core" relative) ++ (0 ∷ text ++ (0 ∷ []))))
          (unix (join root relative)))
  ]

  same_bytes :
      (root : String) (names : List String)
      → all_bytes (with_crlf files) root names ≡ all_bytes files root names
  unfolding all_bytes
  same_bytes root [] = refl
  same_bytes root (relative ∷ rest) = rw (same_source root relative, same_bytes root rest) refl

  digest_from :
      (sha256 : List ℕ → String) (folder : Result String) (names : List String)
      → (folder >>= λ root. all_bytes (with_crlf files) root names >>= λ bytes. ok (sha256 bytes))
        ≡ (folder >>= λ root. all_bytes files root names >>= λ bytes. ok (sha256 bytes))
  digest_from sha256 (err e) names = refl
  digest_from sha256 (ok root) names = rw (same_bytes root names) refl

  -- If no source contains a carriage return, a checkout that writes line ends as Windows does has
  -- the same digest, or raises the same exception.
  pub checkout_keeps_digest :
      (sha256 : List ℕ → String) (source_root : Option String)
      → execution_source_sha256 (with_crlf files) sha256 source_root
        ≡ execution_source_sha256 files sha256 source_root
  unfolding execution_source_sha256 resolve_package_root first_package
  checkout_keeps_digest sha256 source_root =
      digest_from sha256 (resolve_package_root files source_root) protected_execution_sources
