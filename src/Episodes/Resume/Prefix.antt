-- ===== src/Episodes/Resume/Prefix.antt =====
-- What a download that resumes hands over (episodes/resume.go).
use solstein.Base.{
  append_assoc, drop-length-append, ℕ, zero, suc, ◌+◌, ◌≤◌, ◌<◌, ◌≡◌, refl, sym, ap, ◌∙◌, inl, inr,
  Bool, true, false, not, ◌||◌, Option, some, List, [], ◌∷◌, ◌++◌, ltb, length, length-append, drop,
  drop-drop, Bool-cases, arith,
}
use solstein.Episodes.Resume.{
  End, going, broken, Body, Answer, RestRequest, Download, max_resumes, resumable, next_read,
  is_failure, resume, repair, read, read_all, is_going,
}
use solstein.Episodes.Resume.Resumed.{
  ReadsFrom, BodyFrom, IsHonest, IsAt, resume-Resumed, repair-Resumed,
}

no_length : (xs : List ℕ) → ltb 0 (length xs) ≡ false → length xs ≡ 0
no_length xs h = ground arith

module _ (file : List ℕ) (answer : ℕ → RestRequest → Answer) (honest : IsHonest file answer) where
  -- The next read of a body that goes on from a place.
  next_lem :
      (place : ℕ) (body : Body)
      → BodyFrom file place body
      → ReadsFrom file place (next_read body).0
        × BodyFrom file (place + length (next_read body).0) (next_read body).2
  next_lem place [] is = ((drop place file, refl), tt)
  next_lem place ((bytes, end) ∷ body) is = is

  -- A read hands over what comes next in the file, and goes on from there.
  abbrev pub Handed : Download → Option (List ℕ × End × Download) → Type 0
  Handed d result =
      (bytes : List ℕ) × (end : End) × (after : Download) × (result ≡ some (bytes, end, after))
      × ReadsFrom file d.read bytes
      × IsAt file after
      × (after.read ≡ d.read + length bytes)
      × (d.resumes ≤ after.resumes)

  nothing_read : (place : ℕ) → ReadsFrom file place []
  nothing_read place = (drop place file, refl)

  read-Handed :
      (fuel : ℕ) (cancelled : Bool) (d : Download)
      → IsAt file d
      → max_resumes < fuel + d.resumes
      → Handed d (read answer fuel cancelled d)
  unfolding read
  read-Handed zero cancelled d is enough = absurd (omega (arith, is.resumes))
  read-Handed (suc fuel) cancelled d is enough =
      let whole = (repair answer cancelled d).0 in
      let (is', same, more) = repair-Resumed file answer honest cancelled d is in
      let got = next_read whole.body in
      let (bytes, next) = next_lem whole.read whole.body is'.body in
      let after = record whole { body = got.2; read = whole.read + length got.0 } in
      let is_after : IsAt file after = record { body = next; resumes = is'.resumes } in
      let r = resume-Resumed file answer honest cancelled after is_after in
      let again = (resume answer cancelled after).0 in
      let here : ReadsFrom file d.read got.0 = rw same at bytes in
      elim (Bool-cases (repair answer cancelled d).1) [
        | inr lost ↦
            ([], broken, whole, rw lost refl, nothing_read d.read, is', omega (arith, same), more)
        | inl repaired ↦
            elim (Bool-cases (not (is_failure got.1) || not (resumable cancelled after))) [
              | inl as_is ↦ (
                got.0,
                got.1,
                after,
                rw (repaired, as_is) refl,
                here,
                is_after,
                omega (arith, same),
                more,
              )
              | inr carry_on ↦ elim (Bool-cases (ltb 0 (length got.0))) [
                | inl some_bytes ↦ (
                  got.0,
                  going,
                  record after { is_broken = true },
                  rw (repaired, carry_on, some_bytes) refl,
                  here,
                  record { body = next; resumes = is'.resumes },
                  omega (arith, same),
                  more,
                )
                | inr no_bytes ↦
                    let none_read : length got.0 ≡ 0 = no_length got.0 no_bytes in
                    let still : again.read ≡ d.read = omega (arith, r.same, same, none_read) in
                    elim (Bool-cases (resume answer cancelled after).1) [
                      | inr lost ↦ (
                        [],
                        broken,
                        again,
                        rw (repaired, carry_on, no_bytes, lost) refl,
                        nothing_read d.read,
                        r.place,
                        omega (arith, still),
                        omega (arith, more, r.more),
                      )
                      | inl resumed ↦
                          let (bytes', end', after', eq, reads, is_at, count, fewer) =
                            read-Handed fuel cancelled again r.place
                              (omega (arith, r.counted resumed, more)) in
                          (
                            bytes',
                            end',
                            after',
                            rw (repaired, carry_on, no_bytes, resumed) eq,
                            rw still at reads,
                            is_at,
                            omega (arith, still, count),
                            omega (arith, more, r.more, fewer),
                          )
                    ]
              ]
            ]
      ]

  append_reads :
      (place : ℕ) (xs ys : List ℕ)
      → ReadsFrom file place xs
      → ReadsFrom file (place + length xs) ys
      → ReadsFrom file place (xs ++ ys)
  append_reads place xs ys (rest, here) (rest', there) =
      let left : rest ≡ drop (place + length xs) file =
        sym (drop-length-append xs rest)
        ∙ ap (drop (length xs)) here
        ∙ drop-drop (length xs) place file in
      (rest', append_assoc xs ys rest' ∙ ap (λ l. xs ++ l) (there ∙ sym left) ∙ here)

  -- Every read returns, all that is handed over is the file's from where the download stood, and it is
  -- resumed three times at most.
  pub read_all-Handed :
      (flags : List Bool) (d : Download)
      → IsAt file d
      → Handed d (read_all answer (suc max_resumes) flags d)
  unfolding read_all
  read_all-Handed [] d is = ([], going, d, refl, nothing_read d.read, is, omega arith, omega arith)
  read_all-Handed (cancelled ∷ flags) d is =
      let (bytes, end, after, eq, reads, is_at, count, more) =
        read-Handed (suc max_resumes) cancelled d is (omega arith) in
      let (bytes', end', after', eq', reads', is_at', count', more') =
        read_all-Handed flags after is_at in
      elim (Bool-cases (is_going end)) [
        | inr done ↦ (bytes, end, after, rw (eq, done, read_all) refl, reads, is_at, count, more)
        | inl goes ↦ (
          bytes ++ bytes',
          end',
          after',
          rw (eq, goes, eq', read_all) refl,
          append_reads d.read bytes bytes' reads (rw count at reads'),
          is_at',
          omega (arith, count, count', length-append bytes bytes'),
          omega (arith, more, more'),
        )
      ]
