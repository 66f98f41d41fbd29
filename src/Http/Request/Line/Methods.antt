-- ===== src/Http/Request/Line/Methods.antt =====
-- `_parse_method_line` on a well-formed method line.
use liblw.Prelude.{
  ℕ, ◌+◌, ◌-◌, ◌≡◌, refl, ap, ◌∙◌, [], ◌∷◌, ◌++◌, append_assoc, arith, length, length-append,
}
use liblw.Base.Chars.{Bytes}
use liblw.Base.Views.Cut.{substr-append, drop-prefix, get_elem?-append}
use liblw.Err.{ok}
use liblw.Http.Request.{HttpRequest}
use liblw.Http.Request.Line.{read_query, read_version, parse_method_line}
use liblw.Http.Request.Scan.Runs.{
  NoSpaces, NoMarks, to_space-append, to_path_end-append, check_is_space-space,
}

-- The version, wherever it stands in the view.
pub read_version-ok :
    (pre version rest view : Bytes) (start : ℕ) (req : HttpRequest)
    → NoSpaces version
    → view ≡ pre ++ (version ++ (b'\r' ∷ b'\n' ∷ rest))
    → start ≡ length pre
    → read_version view start req
      ≡ (ok (start + length version + 2), record req { http_version = version })
unfolding read_version
read_version-ok pre version rest view start req n e f = ground (
  arith,
  drop-prefix pre (version ++ (b'\r' ∷ b'\n' ∷ rest)) view start e f,
  to_space-append version (b'\n' ∷ rest) b'\r' start n refl,
  get_elem?-append (pre ++ version) (b'\n' ∷ rest) view b'\r' (start + length version)
      (e ∙ simp append_assoc) (omega (arith, length-append pre version)),
  get_elem?-append (pre ++ (version ++ b'\r' ∷ [])) rest view b'\n' (start + length version + 1)
      (e ∙ simp append_assoc)
      (omega
        (arith, length-append pre (version ++ (b'\r' ∷ [])), length-append version (b'\r' ∷ []))),
  substr-append pre version (b'\r' ∷ b'\n' ∷ rest) view start (start + length version - start) e f
      (omega arith),
  ap length e,
  length-append pre (version ++ (b'\r' ∷ b'\n' ∷ rest)),
  length-append version (b'\r' ∷ b'\n' ∷ rest),
)

-- The parts of a method line, in the order of the line. `query` is the text behind the '?'.
pub record IsTarget (method path version : Bytes) : Type 0 where
  pub method_lacks_spaces : NoSpaces method
  pub path_lacks_spaces : NoSpaces path
  pub path_lacks_mark : NoMarks path
  pub version_lacks_spaces : NoSpaces version

abbrev pub line_end : Bytes → Bytes → Bytes
line_end version rest = version ++ (b'\r' ∷ b'\n' ∷ rest)

abbrev pub plain_line : Bytes → Bytes → Bytes → Bytes → Bytes
plain_line method path version rest = method ++ (32 ∷ (path ++ (32 ∷ line_end version rest)))

abbrev pub query_line : Bytes → Bytes → Bytes → Bytes → Bytes → Bytes
query_line method path query version rest =
    method ++ (32 ∷ (path ++ (b'?' ∷ (query ++ (32 ∷ line_end version rest)))))

-- A line with no query gives back its method, its path and its version, and the index behind the
-- line.
pub parse_method_line-plain :
    (method path version rest : Bytes) (req : HttpRequest)
    → IsTarget method path version
    → parse_method_line (plain_line method path version rest) req ≡ (
      ok (length method + 1 + length path + 1 + length version + 2),
      record req { method = method; path = path; raw_path = path; http_version = version },
    )
unfolding parse_method_line read_query
parse_method_line-plain method path version rest req t = ground (
  arith,
  to_space-append method (path ++ (32 ∷ line_end version rest)) 32 0 t.method_lacks_spaces refl,
  get_elem?-append method (path ++ (32 ∷ line_end version rest)) view 32 (length method) refl refl,
  check_is_space-space view (length method),
  substr-append [] method (32 ∷ (path ++ (32 ∷ line_end version rest))) view 0 (length method) refl
      refl refl,
  drop-prefix (method ++ (32 ∷ [])) (path ++ (32 ∷ line_end version rest)) view (length method + 1)
      (simp append_assoc) (omega (arith, length-append method (32 ∷ []))),
  to_path_end-append path (line_end version rest) 32 (length method + 1) t.path_lacks_spaces
      t.path_lacks_mark refl,
  get_elem?-append (method ++ (32 ∷ path)) (line_end version rest) view 32
      (length method + 1 + length path) (simp append_assoc)
      (omega (arith, length-append method (32 ∷ path))),
  check_is_space-space view (length method + 1 + length path),
  substr-append (method ++ (32 ∷ [])) path (32 ∷ line_end version rest) view (length method + 1)
      (length method + 1 + length path - (length method + 1)) (simp append_assoc)
      (omega (arith, length-append method (32 ∷ []))) (omega arith),
  read_version-ok (method ++ (32 ∷ (path ++ (32 ∷ [])))) version rest view
      (length method + 1 + length path + 1)
      (record req { method = method; path = path; raw_path = path }) t.version_lacks_spaces
      (simp append_assoc)
      (omega
        (arith, length-append method (32 ∷ (path ++ (32 ∷ []))), length-append path (32 ∷ []))),
)
  where
    view : Bytes
    view = plain_line method path version rest
