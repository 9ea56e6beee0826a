-- ===== src/Verifier/Examples.antt =====
-- src/qmt_execution_core/verifier.py: the check of the machine as it is.
use qmt_execution_core.Common.{
  ℕ, true, false, String, List, [], ◌∷◌, subst, length, ◌==◌, if◌then◌else◌, ◌≡◌, refl, some,
}
use qmt_execution_core.Errors.{ok, ok_inj}
use qmt_execution_core.Verifier.Sources.{
  SourceFiles, with_crlf, has_cr, execution_source_sha256, checkout_keeps_digest,
}
use qmt_execution_core.Verifier.Report.{StateMachineReport, SourceDigests, verify_state_machine}
use qmt_execution_core.Verifier.Verified.{IsConclusive, check_passes-IsConclusive}

abbrev digests : SourceDigests
digests = record { spec = "spec"; sources = ok "sources" }

check_passes-IsConclusive_example :
    (report : StateMachineReport) × (verify_state_machine 53 digests ≡ ok (some report))
    × IsConclusive report
check_passes-IsConclusive_example = check_passes-IsConclusive digests "sources" refl

-- each source is one line
abbrev files : SourceFiles
files = record {
  is_file = λ path. true;
  read_bytes = λ path. ok (120 ∷ 10 ∷ []);
  resolve_path = λ path. path;
  own_folder = "/core";
}

no_cr : (path : String) (text : List ℕ) → files.read_bytes path ≡ ok text → has_cr text ≡ false
no_cr path text h = subst (λ t. has_cr t ≡ false) (ok_inj h) refl

abbrev sha256 : List ℕ → String
sha256 bytes = if length bytes == 870 then "as expected" else "other"

checkout_keeps_digest_example :
    execution_source_sha256 (with_crlf files) sha256 (some "/repo")
    ≡ execution_source_sha256 files sha256 (some "/repo")
checkout_keeps_digest_example = checkout_keeps_digest files no_cr sha256 (some "/repo")
