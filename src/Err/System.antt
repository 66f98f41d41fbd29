-- ===== src/Err/System.antt =====
-- lw/err/system.h and system.cpp: the error that a code of the system is thrown as. The codes
-- are the
-- numbers of Linux, each with its name beside it.
use liblw.Prelude.{
  ℕ, ◌≡◌, refl, Bool, true, false, ◌||◌, List, [], ◌∷◌, ◌==◌, if◌then◌else◌, arith, ◌⊎◌, inl, inr,
  Bool-cases,
}
use liblw.Err.{
  Error, aborted, already_exists, cancelled, deadline_exceeded, failed_precondition, internal,
  invalid_argument, not_found, out_of_range, permission_denied, resource_exhausted, unavailable,
  unimplemented, Result, ok, throws,
}

-- EAGAIN, ECONNABORTED, EDEADLK, ENETRESET, ERESTART
abbrev aborted_codes : List ℕ
aborted_codes = 11 ∷ 103 ∷ 35 ∷ 102 ∷ 85 ∷ []

-- EALREADY, EEXIST, EINPROGRESS
abbrev already_exists_codes : List ℕ
already_exists_codes = 114 ∷ 17 ∷ 115 ∷ []

-- ECANCELED, ECONNRESET, EINTR, ENOLINK
abbrev cancelled_codes : List ℕ
cancelled_codes = 125 ∷ 104 ∷ 4 ∷ 67 ∷ []

-- ETIME, ETIMEDOUT
abbrev deadline_exceeded_codes : List ℕ
deadline_exceeded_codes = 62 ∷ 110 ∷ []

-- EADDRINUSE, EADDRNOTAVAIL, EBADFD, ECHILD, EISCONN, EISDIR, EISNAM, EKEYEXPIRED, ENODATA,
-- ENONET, ENOPKG, ENOTBLK, ENOTCONN, ENOTEMPTY, ENOTTY, ENOTUNIQ, EPIPE, ESHUTDOWN, EUNATCH
abbrev failed_precondition_codes : List ℕ
failed_precondition_codes =
    98 ∷ 99 ∷ 77 ∷ 10 ∷ 106 ∷ 21 ∷ 120 ∷ 127 ∷ 61 ∷ 64 ∷ 65 ∷ 15 ∷ 107 ∷ 39 ∷ 25 ∷ 76 ∷ 32 ∷ 108
    ∷ 49 ∷ []

-- EBADE, ECOMM, EHWPOISON, EIDRM, EIO, EL2HLT, EL2NSYNC, EL3HLT, EL3RST, ELIBACC, ELIBBAD,
-- ELIBSCN, ELIBEXEC, ENOTRECOVERABLE, ERFKILL
abbrev internal_codes : List ℕ
internal_codes = 52 ∷ 70 ∷ 133 ∷ 43 ∷ 5 ∷ 51 ∷ 45 ∷ 46 ∷ 47 ∷ 79 ∷ 80 ∷ 81 ∷ 83 ∷ 131 ∷ 132 ∷ []

-- E2BIG, EBADF, EBADMSG, EBADR, EBADRQC, EBADSLT, EDESTADDRREQ, EFAULT, EILSEQ, EINVAL,
-- ENAMETOOLONG, ENOEXEC, ENOTDIR, ENOSTR, ENOTSOCK, EPROTOTYPE, ESPIPE, ESTALE
abbrev invalid_argument_codes : List ℕ
invalid_argument_codes =
    7 ∷ 9 ∷ 74 ∷ 53 ∷ 56 ∷ 57 ∷ 89 ∷ 14 ∷ 84 ∷ 22 ∷ 36 ∷ 8 ∷ 20 ∷ 60 ∷ 88 ∷ 91 ∷ 29 ∷ 116 ∷ []

-- ENODEV, ENOENT, ENOMSG, ENXIO, ESRCH
abbrev not_found_codes : List ℕ
not_found_codes = 19 ∷ 2 ∷ 42 ∷ 6 ∷ 3 ∷ []

-- ECHRNG, EDOM, ERANGE
abbrev out_of_range_codes : List ℕ
out_of_range_codes = 44 ∷ 33 ∷ 34 ∷ []

-- EACCES, ECONNREFUSED, EKEYREJECTED, EKEYREVOKED, EPERM, EROFS
abbrev permission_denied_codes : List ℕ
permission_denied_codes = 13 ∷ 111 ∷ 129 ∷ 128 ∷ 1 ∷ 30 ∷ []

-- EDQUOT, EFBIG, ELIBMAX, ELOOP, EMFILE, EMLINK, EMSGSIZE, ENFILE, ENOBUFS, ENOKEY, ENOLCK,
-- ENOMEM, ENOSPC, ENOSR, EOVERFLOW, ETOOMANYREFS, EUSERS, EXFULL
abbrev resource_exhausted_codes : List ℕ
resource_exhausted_codes =
    122 ∷ 27 ∷ 82 ∷ 40 ∷ 24 ∷ 31 ∷ 90 ∷ 23 ∷ 105 ∷ 126 ∷ 37 ∷ 12 ∷ 28 ∷ 63 ∷ 75 ∷ 109 ∷ 87 ∷ 54 ∷ []

-- EBUSY, EHOSTDOWN, EHOSTUNREACH, ENETDOWN, ENETUNREACH, ENOPROTOOPT, ETXTBSY
abbrev unavailable_codes : List ℕ
unavailable_codes = 16 ∷ 112 ∷ 113 ∷ 100 ∷ 101 ∷ 92 ∷ 26 ∷ []

-- EAFNOSUPPORT, ENOSYS, ENOTSUP, EPFNOSUPPORT, EPROTONOSUPPORT, ESOCKTNOSUPPORT
abbrev unimplemented_codes : List ℕ
unimplemented_codes = 97 ∷ 38 ∷ 95 ∷ 96 ∷ 93 ∷ 94 ∷ []

unfoldable pub is_one_of_codes : ℕ → List ℕ → Bool
is_one_of_codes err_code [] = false
is_one_of_codes err_code (code ∷ codes) = err_code == code || is_one_of_codes err_code codes

abbrev table : List (List ℕ × Error)
table =
    (aborted_codes, aborted)
    ∷ (already_exists_codes, already_exists)
    ∷ (cancelled_codes, cancelled)
    ∷ (deadline_exceeded_codes, deadline_exceeded)
    ∷ (failed_precondition_codes, failed_precondition)
    ∷ (internal_codes, internal)
    ∷ (invalid_argument_codes, invalid_argument)
    ∷ (not_found_codes, not_found)
    ∷ (out_of_range_codes, out_of_range)
    ∷ (permission_denied_codes, permission_denied)
    ∷ (resource_exhausted_codes, resource_exhausted)
    ∷ (unavailable_codes, unavailable)
    ∷ (unimplemented_codes, unimplemented)
    ∷ []

-- the cases in their order; the last one is for a code that no case names
unfoldable pub select : ℕ → List (List ℕ × Error) → Error
unfolding is_one_of_codes
select err_code [] = internal
select err_code ((codes, e) ∷ cases) =
    let later = select err_code cases in if is_one_of_codes err_code codes then e else later

-- `check_system_error`
unfoldable pub check_system_error : ℕ → Result (Unit {0})
unfolding select
check_system_error err_code = if err_code == 0 then ok tt else throws (select err_code table)

-- Only the code 0 is no error: every other code is thrown, a code that no case names as `Internal`.
check_system_error-ok : (err_code : ℕ) → check_system_error err_code ≡ ok tt → err_code ≡ 0
unfolding check_system_error
check_system_error-ok err_code e = by_test (err_code == 0) refl e
  where
    by_test :
        (b : Bool)
        → (err_code == 0) ≡ b
        → ◌≡◌ {A = Result (Unit {0})} (if b then ok tt else throws (select err_code table)) (ok tt)
        → err_code ≡ 0
    by_test true zero_code p = ground (arith, zero_code)
    by_test false other p = absurd (cc)

-- A code is no error, or is thrown.
pub check_system_error-cases :
    (err_code : ℕ)
    → (check_system_error err_code ≡ ok tt)
      ⊎ ((e : Error) × (check_system_error err_code ≡ throws e))
unfolding check_system_error
check_system_error-cases err_code = elim (Bool-cases (err_code == 0)) [
  | inl zero_code ↦ inl (rw zero_code refl)
  | inr other ↦ inr (select err_code table, rw other refl)
]
