-- ===== src/Http/Response/ReadBack.antt =====
-- The header lines that `serialize` writes, read by the parser of requests.
use liblw.Prelude.{
  ℕ, suc, ◌+◌, ◌<◌, ◌≡◌, refl, sym, ap, ◌∙◌, true, false, Bool-cases, inl, inr, List, [], ◌∷◌, ◌++◌,
  append_assoc, arith, length, length-append, if◌then◌else◌,
}
use mathlib.Core.Path.{subst}
use liblw.Prelude.Int.{ℤ, pos}
use liblw.Base.Chars.{Bytes, codes}
use liblw.Base.OrderedMap as OrderedMap
use liblw.Base.OrderedMap.Laws.{After, IsOrdered}
use liblw.Base.Strings.{less}
use liblw.Base.Strings.Order.{IsShort}
use liblw.Err.{Result, ok}
use liblw.Http.Headers.{Headers}
use liblw.Http.Headers as Map
use liblw.Http.Request.{HttpRequest}
use liblw.Http.Request.Line.{parse_headers}
use liblw.Http.Request.Line.Fields.{
  Line, IsLine, IsValue, print_lines, AreLines, fields, parse_headers-print,
}
use liblw.Http.Request.Query.RoundTrip.{insert_all}
use liblw.Http.Response.{
  HttpResponse, header_lines, has_header, length_line, status, status_message, serialize, end,
}
use liblw.Http.Response.Headers.{HasOrderedHeaders}

-- a header as `operator<<` writes it
abbrev line_of : Bytes × Bytes → Line
line_of (key, value) = record { name = key; blanks = codes " "; value = value }

abbrev pub lines_of : Headers → List Line
lines_of [] = []
lines_of (h ∷ hs) = line_of h ∷ lines_of hs

header_lines-print :
    (hs : Headers) (body : Bytes)
    → header_lines hs ++ (end ++ body) ≡ print_lines (lines_of hs) body
unfolding header_lines
header_lines-print [] body = refl
header_lines-print (h ∷ hs) body = rw⁻¹ (header_lines-print hs body) (simp append_assoc)

fields-lines_of : (hs : Headers) → fields (lines_of hs) ≡ hs
fields-lines_of [] = refl
fields-lines_of (h ∷ hs) = ap (◌∷◌ h) (fields-lines_of hs)

length-lines_of : (hs : Headers) → length (lines_of hs) ≡ length hs
length-lines_of [] = refl
length-lines_of (h ∷ hs) = ap suc (length-lines_of hs)

parse_headers-header_lines :
    (hs : Headers) (body : Bytes) (fuel : ℕ) (req : HttpRequest)
    → length hs < fuel
    → AreLines (lines_of hs)
    → parse_headers fuel (header_lines hs ++ (end ++ body)) req
      ≡ (ok tt, record req { headers = insert_all hs req.headers })
parse_headers-header_lines hs body fuel req lt h =
    ap (λ x. parse_headers fuel x req) (header_lines-print hs body)
    ∙ parse_headers-print (lines_of hs) body fuel req h (omega (arith, length-lines_of hs))
    ∙ ap (λ l. (ok tt, record req { headers = insert_all l req.headers })) (fields-lines_of hs)

-- the headers of a map, in its order, are put into a map as they stand
After-less :
    (j : Bytes) (acc : Headers) (k v : Bytes) (hs : Headers)
    → After IsShort less j (acc ++ ((k, v) ∷ hs))
    → less j k ≡ true
After-less j [] k v hs a = a.0
After-less j (i ∷ acc) k v hs a = After-less j acc k v hs a.1

insert-last :
    (acc : Headers) (k v : Bytes) (hs : Headers)
    → IsOrdered IsShort less (acc ++ ((k, v) ∷ hs))
    → Map.insert k v acc ≡ acc ++ ((k, v) ∷ [])
unfolding OrderedMap.insert
insert-last [] k v hs o = refl
insert-last ((j, w) ∷ acc) k v hs (g, a, o) =
    rw (After-less j acc k v hs a) (ap (◌∷◌ (j, w)) (insert-last acc k v hs o))

nothing_behind : (acc : Headers) → acc ≡ acc ++ []
nothing_behind [] = refl
nothing_behind (h ∷ acc) = ap (◌∷◌ h) (nothing_behind acc)

insert_all-ordered :
    (hs acc : Headers) → IsOrdered IsShort less (acc ++ hs) → insert_all hs acc ≡ acc ++ hs
insert_all-ordered [] acc o = nothing_behind acc
insert_all-ordered ((k, v) ∷ hs) acc o =
    let regrouped : (acc ++ ((k, v) ∷ [])) ++ hs ≡ acc ++ ((k, v) ∷ hs) = simp append_assoc in
    ap (insert_all hs) (insert-last acc k v hs o)
    ∙ insert_all-ordered hs (acc ++ ((k, v) ∷ []))
        (subst (IsOrdered IsShort less) (sym regrouped) o)
    ∙ regrouped

insert_all-append :
    (hs : Headers) (k v : Bytes) (acc : Headers)
    → insert_all (hs ++ ((k, v) ∷ [])) acc ≡ Map.insert k v (insert_all hs acc)
insert_all-append [] k v acc = refl
insert_all-append ((j, w) ∷ hs) k v acc = insert_all-append hs k v (Map.insert j w acc)

header_lines-append :
    (hs : Headers) (h : Bytes × Bytes)
    → header_lines (hs ++ (h ∷ [])) ≡ header_lines hs ++ header_lines (h ∷ [])
unfolding header_lines
header_lines-append [] h = refl
header_lines-append (i ∷ hs) h = rw (header_lines-append hs h) (simp append_assoc)

AreLines-append :
    (hs : Headers) (h : Bytes × Bytes)
    → AreLines (lines_of hs)
    → IsLine (line_of h)
    → AreLines (lines_of (hs ++ (h ∷ [])))
AreLines-append [] h a l = (l, tt)
AreLines-append (i ∷ hs) h a l = (a.0, AreLines-append hs h a.1 l)

module _ (print : ℤ → Bytes) where
  -- the header lines of a response, the blank line and the body
  abbrev pub written : HttpResponse → Bytes
  written res = header_lines res.headers ++ (length_line print res ++ (end ++ res.body))

  -- the header "Content-Length" of a response that does not set it
  abbrev counted : HttpResponse → Bytes × Bytes
  counted res = (codes "Content-Length", print (pos (length res.body)))

  -- the headers with that one
  abbrev pub with_length : HttpResponse → Headers
  with_length res =
      if has_header (codes "Content-Length") res
      then res.headers
      else Map.insert (codes "Content-Length") (print (pos (length res.body))) res.headers

  counted-IsLine :
      (res : HttpResponse)
      → IsValue (print (pos (length res.body)))
      → IsLine (line_of (counted res))
  counted-IsLine res v = record { name_is = ground arith; blanks_are = ground arith; value_is = v }

  written-counted :
      (res : HttpResponse)
      → has_header (codes "Content-Length") res ≡ false
      → written res ≡ header_lines (res.headers ++ (counted res ∷ [])) ++ (end ++ res.body)
  unfolding header_lines
  written-counted res absent =
      rw (absent, header_lines-append res.headers (counted res)) (simp append_assoc)

  -- Let the headers of a response be in the order of their map, and each name and value, and the
  -- text of the body's size, be one that a request may hold. Then `serialize` writes the status
  -- line and behind it a text that the parser of requests reads as the same headers, with
  -- "Content-Length" and the size of the body if the response does not set that header.
  pub parse_headers-serialize :
      (res : HttpResponse) (message : Bytes) (fuel : ℕ) (req : HttpRequest)
      → status_message res ≡ ok message
      → HasOrderedHeaders res
      → AreLines (lines_of res.headers)
      → IsValue (print (pos (length res.body)))
      → req.headers ≡ []
      → length res.headers + 1 < fuel
      → (serialize print res
          ≡ ok (
              codes "HTTP/1.1 "
              ++ (print (status res) ++ (codes " " ++ (message ++ (end ++ written res))))))
        × (parse_headers fuel (written res) req ≡ (ok tt, record req { headers = with_length res }))
  unfolding serialize
  parse_headers-serialize res message fuel req e o a v none lt = (
    rw e refl,
    elim (Bool-cases (has_header (codes "Content-Length") res)) [
      | inl set ↦ kept set
      | inr absent ↦ added absent
    ],
  )
    where
      stored : Headers → Result (Unit {0}) × HttpRequest
      stored hs = (ok tt, record req { headers = hs })

      kept :
          has_header (codes "Content-Length") res ≡ true
          → parse_headers fuel (written res) req ≡ stored (with_length res)
      kept set =
          let read = parse_headers-header_lines res.headers res.body fuel req (omega arith) a in
          let same : insert_all res.headers req.headers ≡ res.headers =
            ap (insert_all res.headers) none ∙ insert_all-ordered res.headers [] o in
          rw set (read ∙ ap stored same)

      added :
          has_header (codes "Content-Length") res ≡ false
          → parse_headers fuel (written res) req ≡ stored (with_length res)
      added absent =
          let hs = res.headers ++ (counted res ∷ []) in
          let lines = AreLines-append res.headers (counted res) a (counted-IsLine res v) in
          let fits : length hs < fuel =
            omega (arith, length-append res.headers (counted res ∷ [])) in
          let same : insert_all hs req.headers
              ≡ Map.insert (codes "Content-Length") (print (pos (length res.body))) res.headers =
            ap (insert_all hs) none
            ∙ insert_all-append res.headers (codes "Content-Length") (print (pos (length res.body)))
                []
            ∙ ap (Map.insert (codes "Content-Length") (print (pos (length res.body))))
                (insert_all-ordered res.headers [] o) in
          ap (λ x. parse_headers fuel x req) (written-counted res absent)
          ∙ parse_headers-header_lines hs res.body fuel req fits lines
          ∙ ap stored same
          ∙ rw absent refl
