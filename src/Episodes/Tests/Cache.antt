-- ===== src/Episodes/Tests/Cache.antt =====
-- A download that breaks, and a cache over its cap, with the theorems at them.
use solstein.Base.{
  ℕ, zero, suc, ◌≡◌, refl, sym, subst, false, Option, some, List, [], ◌∷◌, arith, pos, ℤ,
}
use solstein.Models.{Episode}
use solstein.Episodes.ContentRange.{parse_content_range, print_content_range}
use solstein.Episodes.ContentRange.RoundTrip.{parse_content_range-print}
use solstein.Episodes.Resume.{
  going, over, broken, Response, Answer, refused, answered, RestRequest, Download,
  new_resuming_body, read_all,
}
use solstein.Episodes.Resume.Resumed.{BodyFrom, IsHonest, IsAt}
use solstein.Episodes.Resume.Prefix.{Handed, read_all-Handed}
use solstein.Episodes.Housekeeping.{
  Removal, removed, total_size, cached_by_age, insert_by_age, evict_from, enforce_size_cap,
}
use solstein.Episodes.Housekeeping.Cap.{IsCapped, enforce_size_cap-IsCapped}
use solstein.Models.Examples.{new_episode}

abbrev file : List ℕ
file = 1 ∷ 2 ∷ 3 ∷ 4 ∷ 5 ∷ []

-- The rest from the third byte on, once.
abbrev rest_response : Response
rest_response = record {
  status = 206;
  content_length = pos 3;
  etag = "e";
  last_modified = "";
  content_range = print_content_range 2 4 5;
  body = (3 ∷ 4 ∷ 5 ∷ [], going) ∷ ([], over) ∷ [];
}

abbrev source : ℕ → RestRequest → Answer
source zero request = answered rest_response
source (suc k) request = refused

abbrev first_response : Response
first_response = record {
  status = 200;
  content_length = pos 5;
  etag = "e";
  last_modified = "";
  content_range = [];
  body = (1 ∷ 2 ∷ [], broken) ∷ [];
}

answered_eq : (a b : Response) → answered a ≡ answered b → a ≡ b
answered_eq a b h = cc h

start_eq :
    (start : ℕ) (total : ℤ) (range : Option (ℤ × ℤ))
    → range ≡ some (pos 2, pos 5)
    → range ≡ some (pos start, total)
    → 2 ≡ start
start_eq start total range h k = cc (h, k)

source-IsHonest : IsHonest file source
source-IsHonest zero request response start total h partial range =
    let same = answered_eq rest_response response h in
    let there : parse_content_range rest_response.content_range ≡ some (pos start, total) =
      subst (λ (r : Response). parse_content_range r.content_range ≡ some (pos start, total))
        (sym same) range in
    let place =
      start_eq start total (parse_content_range rest_response.content_range)
        (parse_content_range-print 2 4 5 (omega arith) (omega arith)) there in
    subst (λ (r : Response). BodyFrom file start r.body) same
      (subst (λ (n : ℕ). BodyFrom file n rest_response.body) place (([], refl), (([], refl), tt)))
source-IsHonest (suc k) request response start total h partial range = absurd (cc h)

begin : Download
begin = new_resuming_body first_response

begin-IsAt : IsAt file begin
unfolding begin new_resuming_body
begin-IsAt = record { body = ((3 ∷ 4 ∷ 5 ∷ [], refl), tt); resumes = omega arith }

read_all-Handed_example :
    Handed file source source-IsHonest begin
      (read_all source 4 (false ∷ false ∷ false ∷ false ∷ []) begin)
read_all-Handed_example =
    read_all-Handed file source source-IsHonest (false ∷ false ∷ false ∷ false ∷ []) begin
      begin-IsAt

abbrev old_copy : Episode
old_copy = record new_episode {
  id = 3;
  cache_file = "7/3.mp3";
  cache_size = 40;
  cached_at = some 10;
}

abbrev new_copy : Episode
new_copy = record old_copy { id = 4; cache_size = 30; cached_at = some 20 }

abbrev deletes : Episode → Removal
deletes e = removed

oldest_goes :
    (enforce_size_cap deletes 50 (λ e. false) (new_copy ∷ old_copy ∷ [])).gone ≡ old_copy ∷ []
unfolding enforce_size_cap cached_by_age insert_by_age evict_from
oldest_goes = refl

enforce_size_cap-IsCapped_example :
    IsCapped deletes
      (λ e. false)
      50
      (total_size (cached_by_age (new_copy ∷ old_copy ∷ [])))
      (cached_by_age (new_copy ∷ old_copy ∷ []))
      (enforce_size_cap deletes 50 (λ e. false) (new_copy ∷ old_copy ∷ []))
enforce_size_cap-IsCapped_example =
    enforce_size_cap-IsCapped deletes (λ e. false) 50 (new_copy ∷ old_copy ∷ []) (omega arith)
