-- ===== src/Mp3/Parse/Rounds.antt =====
-- The rounds of the reading loop: how each one changes the loop's variables.
use solstein.Base.{
  ℕ, ◌+◌, ◌-◌, ◌≤◌, ◌<◌, ◌≡◌, refl, ◌⊎◌, inl, inr, Bool, false, not, ◌&&◌, Option, none, some, List,
  ltb, take, drop, more, stop, Bool-cases, ltb_false→le, ltb→lt, arith,
}
use solstein.Mp3.Header.{Header, parse_header, size}
use solstein.Mp3.Parse.{Scan, accepted, take_frame, confirmed, scan_header, scan_round}

-- One more byte that belongs to no frame.
abbrev pub skip : Bool → Scan → Scan
skip synced s = record s { position = s.position + 1; skipped = s.skipped + 1; synced = synced }

-- A round that goes on skips a byte, or takes a frame that fits.
abbrev pub Step : List ℕ → ℕ → Scan → Scan → Type 0
Step bytes end s s' =
    ((b : Bool) × (s' ≡ skip b s))
    ⊎ ((header : Header) × (parse_header (drop s.position bytes) ≡ some header)
        × (accepted (some header) s.stream ≡ some header)
        × (s.position + size header ≤ end)
        × (s' ≡ take_frame bytes header s))

-- The loop ends where no header fits, or at a frame that the end cuts off.
abbrev pub Last : ℕ → Scan → Scan → Type 0
Last end s s' =
    ((end < s.position + 4) × (s' ≡ s))
    ⊎ ((s.position + 4 ≤ end) × (s' ≡ record s { truncated = end - s.position; position = end }))

pub accepted-some :
    (o stream : Option Header) {h : Header}
    → accepted o stream ≡ some h
    → (o ≡ some h) × (accepted (some h) stream ≡ some h)
accepted-some none stream e = absurd (cc)
accepted-some (some x) none e = (e, refl)
accepted-some (some x) (some y) e = ground arith

scan_header-Step :
    (bytes : List ℕ) (end : ℕ) (s s' : Scan) (o : Option Header)
    → ((h : Header)
        → o ≡ some h
        → (parse_header (drop s.position bytes) ≡ some h) × (accepted (some h) s.stream ≡ some h))
    → scan_header bytes end o s ≡ more s'
    → Step bytes end s s'
unfolding scan_header
scan_header-Step bytes end s s' none from e = inl (false, cc)
scan_header-Step bytes end s s' (some h) from e =
    elim (Bool-cases (ltb end (s.position + size h))) [
      | inl over ↦ inl (s.synced, ground arith)
      | inr fits ↦
          elim (Bool-cases
            (not s.synced && not (confirmed (take end bytes) (s.position + size h) h))) [
              | inl doubted ↦ inl (s.synced, ground arith)
              | inr believed ↦ let (p, q) = from h refl in inr (h, p, q, ground arith, ground arith)
            ]
    ]

scan_header-Last :
    (bytes : List ℕ) (end : ℕ) (s s' : Scan) (o : Option Header)
    → s.position + 4 ≤ end
    → scan_header bytes end o s ≡ stop s'
    → Last end s s'
unfolding scan_header
scan_header-Last bytes end s s' none room e = absurd (cc)
scan_header-Last bytes end s s' (some h) room e = inr (room, ground arith)

-- Every round that goes on is a `Step`.
pub scan_round-Step :
    (bytes : List ℕ) (end : ℕ) (s s' : Scan)
    → scan_round bytes end s ≡ more s'
    → (s.position + 4 ≤ end) × Step bytes end s s'
unfolding scan_round
scan_round-Step bytes end s s' e = elim (Bool-cases (ltb end (s.position + 4))) [
  | inl past ↦ absurd (cc (rw (past, scan_round) at e))
  | inr room ↦ (
    ltb_false→le _ _ room,
    scan_header-Step bytes end s s' (accepted (parse_header (drop s.position bytes)) s.stream)
        (λ h found. accepted-some _ _ found) (rw (room, scan_round) at e),
  )
]

-- Every last round is a `Last`.
pub scan_round-Last :
    (bytes : List ℕ) (end : ℕ) (s s' : Scan) → scan_round bytes end s ≡ stop s' → Last end s s'
unfolding scan_round
scan_round-Last bytes end s s' e = elim (Bool-cases (ltb end (s.position + 4))) [
  | inl past ↦ inl (ltb→lt _ _ past, ground arith)
  | inr room ↦
      scan_header-Last bytes end s s' (accepted (parse_header (drop s.position bytes)) s.stream)
        (ltb_false→le _ _ room) (rw (room, scan_round) at e)
]
