-- ===== src/Episodes/Resume/Resumed.antt =====
-- Where a download is after it resumes (episodes/resume.go).
use text.Mathlib.Text.{◌==◌ as str_eq}
use solstein.Base.{
  and_left, ℕ, ◌+◌, ◌≤◌, ◌<◌, ◌≡◌, ◌⊎◌, refl, ap, ◌∙◌, inl, inr, Bool, true, false, not, ◌&&◌, some,
  List, [], ◌∷◌, ◌++◌, ◌==◌, if◌then◌else◌, length, drop, ℤ, pos, negsuc, Bool-cases, Option-cases,
  arith,
}
use solstein.Episodes.ContentRange.{parse_content_range}
use solstein.Episodes.Resume.{
  Body, Response, Answer, refused, answered, RestRequest, Download, max_resumes, resumable,
  is_number, check_rest, rest_request, resume, repair,
}

-- The bytes are the file's from a place on.
abbrev pub ReadsFrom : List ℕ → ℕ → List ℕ → Type 0
ReadsFrom file place bytes = (rest : List ℕ) × (bytes ++ rest ≡ drop place file)

abbrev pub BodyFrom : List ℕ → ℕ → Body → Type 0
BodyFrom file place [] = Unit
BodyFrom file place ((bytes, end) ∷ body) =
    ReadsFrom file place bytes × BodyFrom file (place + length bytes) body

-- An answer with status 206 holds the file from the start that its Content-Range names.
abbrev pub IsHonest : List ℕ → (ℕ → RestRequest → Answer) → Type 0
IsHonest file answer =
    (k : ℕ) (request : RestRequest) (response : Response) (start : ℕ) (total : ℤ)
    → answer k request ≡ answered response
    → response.status ≡ 206
    → parse_content_range response.content_range ≡ some (pos start, total)
    → BodyFrom file start response.body

-- The body goes on from what has been read, after no more resumes than are allowed.
pub record IsAt (file : List ℕ) (d : Download) : Type 0 where
  pub body : BodyFrom file d.read d.body
  pub resumes : d.resumes ≤ max_resumes

Answer-cases : (a : Answer) → (a ≡ refused) ⊎ ((r : Response) × (a ≡ answered r))
Answer-cases refused = inl refl
Answer-cases (answered r) = inr (r, refl)

resumable-few :
    (cancelled : Bool) (d : Download) → resumable cancelled d ≡ true → d.resumes < max_resumes
unfolding resumable
resumable-few cancelled d h = elim (Option-cases d.total) [
  | inl unknown ↦ absurd (cc (rw unknown at h))
  | inr (total, known) ↦ let k = rw known at h in ground arith
]

number_eq : (z : ℤ) (n : ℕ) → is_number z n ≡ true → z ≡ pos n
number_eq (pos m) n h = ap pos (ground arith)
number_eq (negsuc m) n h = absurd (cc h)

passed :
    (test : Bool) {rest : Bool}
    → (if test then false else rest) ≡ true
    → (test ≡ false) × (rest ≡ true)
passed true h = absurd (cc h)
passed false h = (refl, h)

status_eq : (n : ℕ) → not (n == 206) ≡ false → n ≡ 206
status_eq n h = ground arith

-- An answer that is taken starts where the download stopped.
check_rest-start :
    (d : Download) (r : Response)
    → check_rest d r ≡ true
    → (r.status ≡ 206)
      × ((total : ℤ) × (parse_content_range r.content_range ≡ some (pos d.read, total)))
unfolding check_rest
check_rest-start d r h =
    let (right, h1) = passed (not (r.status == 206)) h in
    let (same, h2) =
      passed (not (str_eq d.etag "") && not (str_eq r.etag "") && not (str_eq r.etag d.etag)) h1 in
    elim (Option-cases (parse_content_range r.content_range)) [
      | inl unread ↦ absurd (cc (rw unread at h2))
      | inr ((start, total), parsed) ↦ elim (Option-cases d.total) [
        | inl unknown ↦ absurd (cc (rw (parsed, unknown) at h2))
        | inr (expected, known) ↦
            let h3 = rw (parsed, known) at h2 in
            let at_read = number_eq start d.read (and_left _ _ h3) in
            (status_eq r.status right, (total, parsed ∙ ap (λ s. some (s, total)) at_read))
      ]
    ]

module _ (file : List ℕ) (answer : ℕ → RestRequest → Answer) (honest : IsHonest file answer) where
  -- What a resume does, whether it succeeds or not.
  pub record Resumed (d : Download) (result : Download × Bool) : Type 0 where
    pub place : IsAt file result.0
    pub same : result.0.read ≡ d.read
    pub counted : result.1 ≡ true → result.0.resumes ≡ d.resumes + 1
    pub more : d.resumes ≤ result.0.resumes

  pub resume-Resumed :
      (cancelled : Bool) (d : Download) → IsAt file d → Resumed d (resume answer cancelled d)
  unfolding resume
  resume-Resumed cancelled d is = elim (Bool-cases (resumable cancelled d)) [
    | inr spent ↦
        rw spent
          (record { place = is; same = refl; counted = λ h. absurd (cc h); more = omega arith })
    | inl left ↦
        let few = resumable-few cancelled d left in
        let tried = record d { resumes = d.resumes + 1 } in
        let failed : Resumed d (tried, false) = record {
          place = record { body = is.body; resumes = omega (arith, few) };
          same = refl;
          counted = λ h. absurd (cc h);
          more = omega arith;
        } in
        rw left (elim (Answer-cases (answer d.resumes (rest_request d))) [
          | inl nothing ↦ rw nothing failed
          | inr (r, got) ↦ rw got (elim (Bool-cases (check_rest tried r)) [
            | inr other ↦ rw other failed
            | inl right ↦
                let (status, (total, parsed)) = check_rest-start tried r right in
                rw right (record {
                  place = record {
                    body = honest d.resumes (rest_request d) r d.read total got status parsed;
                    resumes = omega (arith, few);
                  };
                  same = refl;
                  counted = λ h. refl;
                  more = omega arith;
                })
          ])
        ])
  ]

  pub repair-Resumed :
      (cancelled : Bool) (d : Download)
      → IsAt file d
      → IsAt file (repair answer cancelled d).0
        × ((repair answer cancelled d).0.read ≡ d.read)
        × (d.resumes ≤ (repair answer cancelled d).0.resumes)
  unfolding repair
  repair-Resumed cancelled d is = elim (Bool-cases d.is_broken) [
    | inr whole ↦ rw whole (record { body = is.body; resumes = is.resumes }, refl, omega arith)
    | inl parted ↦
        let d' = record d { is_broken = false } in
        let r = resume-Resumed cancelled d' (record { body = is.body; resumes = is.resumes }) in
        rw parted (r.place, r.same, r.more)
  ]
