-- ===== src/Episodes/Resume.antt =====
-- A download that carries on when its connection breaks (episodes/resume.go). The source is a
-- parameter: what it answers to each request for the rest. A body is the reads that it will give, and
-- whether the caller has cancelled is given for each read. A request that can't be made, and a
-- cancellation during the pause before it, come to what an answer that never comes does.
pub mod Resumed
pub mod Prefix
use Prim.Native.String.{String, ◌∷◌ as cons_text}
use text.Mathlib.Text.{◌==◌ as str_eq}
use solstein.Base.{
  ℕ, zero, suc, ◌+◌, Bool, true, false, not, ◌&&◌, ◌||◌, Option, none, some, List, [], ◌∷◌, ◌++◌,
  ◌==◌, ltb, if◌then◌else◌, length, ℤ, pos, negsuc,
}
use solstein.Episodes.ContentRange.{parse_content_range, print_int, bytes_unit}

abbrev pub max_resumes : ℕ
max_resumes = 3

-- How a read ends: more may follow, the body is over, or the connection broke.
pub data End : Type 0 where
  going over broken : End

abbrev pub Body : Type 0
Body = List (List ℕ × End)

pub record Response : Type 0 where
  pub status : ℕ
  pub content_length : ℤ
  pub etag : String
  pub last_modified : String
  pub content_range : List ℕ
  pub body : Body

pub data Answer : Type 0 where
  refused : Answer
  answered : Response → Answer

-- The header Range without "bytes=", and If-Range, empty when there is none.
pub record RestRequest : Type 0 where
  pub range : List ℕ
  pub if_range : String

pub record Download : Type 0 where
  pub validator : String
  pub etag : String
  pub total : Option ℕ
  pub body : Body
  pub read : ℕ
  pub resumes : ℕ
  pub is_broken : Bool

abbrev is_weak : String → Bool
is_weak (cons_text a (cons_text b rest)) = str_eq (cons_text a (cons_text b "")) "W/"
is_weak s = false

abbrev length_stated : ℤ → Option ℕ
length_stated (pos zero) = none
length_stated (pos (suc n)) = some (suc n)
length_stated (negsuc n) = none

unfoldable pub new_resuming_body : Response → Download
new_resuming_body response = record {
  validator =
      if not (str_eq response.etag "") && not (is_weak response.etag)
      then response.etag
      else response.last_modified;
  etag = response.etag;
  total = if response.status == 200 then length_stated response.content_length else none;
  body = response.body;
  read = 0;
  resumes = 0;
  is_broken = false;
}

unfoldable pub resumable : Bool → Download → Bool
resumable cancelled download = elim download.total [
  | none ↦ false
  | some total ↦
      not cancelled && ltb 0 total && ltb download.read total && ltb download.resumes max_resumes
]

abbrev pub is_number : ℤ → ℕ → Bool
is_number (pos m) n = m == n
is_number (negsuc m) n = false

-- Whether an answer is the rest of the same file.
unfoldable pub check_rest : Download → Response → Bool
check_rest download response =
    if not (response.status == 206)
    then false
    else if not (str_eq download.etag "")
        && not (str_eq response.etag "")
        && not (str_eq response.etag download.etag)
    then false
    else elim (parse_content_range response.content_range) [
      | none ↦ false
      | some (start, total) ↦ elim download.total [
        | none ↦ false
        | some expected ↦ is_number start download.read && is_number total expected
      ]
    ]

abbrev pub rest_request : Download → RestRequest
rest_request download = record {
  range = print_int download.read ++ b'-' ∷ [];
  if_range = download.validator;
}

abbrev pub next_read : Body → List ℕ × End × Body
next_read [] = ([], over, [])
next_read ((bytes, end) ∷ body) = (bytes, end, body)

abbrev pub is_failure : End → Bool
is_failure broken = true
is_failure going = false
is_failure over = false

abbrev pub is_going : End → Bool
is_going going = true
is_going over = false
is_going broken = false

module _ (answer : ℕ → RestRequest → Answer) where
  -- The download with the rest as its body, or false.
  unfoldable pub resume : Bool → Download → Download × Bool
  resume cancelled download =
      let tried = record download { resumes = download.resumes + 1 } in
      if not (resumable cancelled download)
      then (download, false)
      else elim (answer download.resumes (rest_request download)) [
        | refused ↦ (tried, false)
        | answered response ↦
            if check_rest tried response
            then (record tried { body = response.body }, true)
            else (tried, false)
      ]

  -- A read that failed before is resumed from first.
  unfoldable pub repair : Bool → Download → Download × Bool
  repair cancelled download =
      if download.is_broken
      then resume cancelled (record download { is_broken = false })
      else (download, true)

  -- What one read hands over, and how it ends; none is fuel that ran out.
  unfoldable pub read : ℕ → Bool → Download → Option (List ℕ × End × Download)
  read zero cancelled download = none
  read (suc fuel) cancelled download =
      let (whole, repaired) = repair cancelled download in
      let (bytes, end, body) = next_read whole.body in
      let after = record whole { body = body; read = whole.read + length bytes } in
      let (again, resumed) = resume cancelled after in
      let rest = read fuel cancelled again in
      if not repaired
      then some ([], broken, whole)
      else if not (is_failure end) || not (resumable cancelled after)
      then some (bytes, end, after)
      else if ltb 0 (length bytes)
      then some (bytes, going, record after { is_broken = true })
      else if resumed
      then rest
      else some ([], broken, again)

  -- Reads until one ends the download, one for each flag at most: all that they hand over.
  unfoldable pub read_all : ℕ → List Bool → Download → Option (List ℕ × End × Download)
  read_all fuel [] download = some ([], going, download)
  read_all fuel (cancelled ∷ flags) download = elim (read fuel cancelled download) [
    | none ↦ none
    | some (bytes, end, after) ↦
        if is_going end
        then elim (read_all fuel flags after) [
          | none ↦ none
          | some (more, last, done) ↦ some (bytes ++ more, last, done)
        ]
        else some (bytes, end, after)
  ]
