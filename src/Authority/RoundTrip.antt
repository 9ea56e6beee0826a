-- ===== src/Authority/RoundTrip.antt =====
-- A record of src/qmt_execution_core/authority.py, written and read again.
use qmt_execution_core.Common.{◌≡◌, some, ℤ}
use qmt_execution_core.Errors.{ok}
use qmt_execution_core.Binding.{number}
use qmt_execution_core.Authority.{
  Host, AccountAuthority, account_authority, to_payload, from_payload, has_required_fields,
}

-- `int` of an int is that int.
abbrev pub ReadsInts : Host → Type 0
ReadsInts host = (n : ℤ) → host.int_of (number n) ≡ some n

-- If `int` of an int is that int, a record that its constructor accepts is read back unchanged from
-- the payload that is written of it.
pub record_reads_back :
    (host : Host) (a : AccountAuthority)
    → ReadsInts host
    → account_authority host a ≡ ok a
    → from_payload host (to_payload a) ≡ ok a
unfolding from_payload to_payload has_required_fields
record_reads_back host a ints h = rw (ints a.schema_version, ints a.account_type) h
