-- ===== src/Palloc/Policies.antt =====
-- find_first_fit and find_next_fit.
use os_project.Common.{
  ℕ, ◌+◌, ◌≤◌, ◌≡◌, ◌≢◌, refl, true, false, ◌==◌, if◌then◌else◌, arith, ok, leb, u32, ◌>>=◌,
}
use os_project.Bitmap.{Bitmap, bitmap_error, bitmap_scan}
use os_project.Bitmap.Bits.{IsValid}
use os_project.Bitmap.Range.{IsRun, IsFill, bitmap_set_multiple_lem}
use os_project.Bitmap.Scan.{
  FirstRun, found, missing, Flipped, bitmap_scan_lem, bitmap_scan_and_flip_lem,
}
use os_project.Palloc.State.{Pool}
use os_project.Palloc.Search.{find_first_fit, find_next_fit, claim_next}
use os_project.Palloc.Placement.{Full, placed, full, IsPool, Searched, Searches}

-- A claim of a run that is free is a placement.
pub Searched-Placed :
    {p q : Pool} {cnt r : ℕ}
    → r + cnt ≤ p.used_map.bit_cnt
    → IsRun p.used_map r cnt false
    → IsFill p.used_map q.used_map r (r + cnt) true
    → q.next_fit_start_idx ≤ p.used_map.bit_cnt
    → q.lock ≡ p.lock
    → q.base ≡ p.base
    → Searched p cnt r q
Searched-Placed fits run fill cursor el eb = record {
  placement = placed fits run fill;
  pool = record { valid = fill.valid; cursor = omega (arith, fill.same_size) };
  same_lock = el;
  same_base = eb;
  same_size = fill.same_size;
}

pub Searched-Full :
    {p : Pool} {cnt r : ℕ} → IsPool p → r ≡ bitmap_error → Full p.used_map cnt → Searched p cnt r p
Searched-Full v e none_fit = record {
  placement = full e refl none_fit;
  pool = v;
  same_lock = refl;
  same_base = refl;
  same_size = refl;
}

-- find_first_fit returns the lowest free run, or reports that there is none, and leaves the cursor
-- of next fit alone.
pub find_first_fit_lem :
    (p : Pool) (cnt : ℕ)
    → IsPool p
    → Searches (find_first_fit p cnt) (λ r q.
      Searched p cnt r q
      × FirstRun p.used_map 0 cnt false r
      × (q.next_fit_start_idx ≡ p.next_fit_start_idx))
unfolding find_first_fit
find_first_fit_lem p cnt v =
    let (r, c, e, f) = bitmap_scan_and_flip_lem p.used_map 0 cnt false v.valid (omega arith) in
    (r, record p { used_map = c }, rw e, (searched r c f f.first, f.first, refl))
  where
    searched :
        (r : ℕ) (c : Bitmap)
        → Flipped p.used_map 0 cnt false r c
        → FirstRun p.used_map 0 cnt false r
        → Searched p cnt r (record p { used_map = c })
    searched r c f (found _ q run _) =
        Searched-Placed q run (f.flipped (omega (arith, v.valid.room))) v.cursor refl refl
    searched r c f (missing e none_run) =
        rw (f.untouched e) (Searched-Full v e (λ i. none_run i (omega arith)))

-- The answer of next fit: the first free run at or after the cursor, or, if there is none, the
-- first of all.
pub data NextRun (b : Bitmap) (start cnt r : ℕ) : Type 0 where
  ahead : r ≢ bitmap_error → FirstRun b start cnt false r → NextRun b start cnt r
  around :
      FirstRun b start cnt false bitmap_error → FirstRun b 0 cnt false r → NextRun b start cnt r

-- Where the cursor goes: behind the claimed pages, or to 0 at the end of the map.
abbrev pub cursor_after : Pool → ℕ → ℕ → ℕ
cursor_after p cnt r =
    if r == bitmap_error
    then p.next_fit_start_idx
    else if leb p.used_map.bit_cnt (r + cnt)
    then 0
    else r + cnt

claim_next_lem :
    (p : Pool) (start cnt r : ℕ)
    → IsPool p
    → FirstRun p.used_map start cnt false r
    → (r ≡ bitmap_error → Full p.used_map cnt)
    → (q : Pool) × (claim_next p r cnt ≡ ok (r, q))
      × Searched p cnt r q
      × (q.next_fit_start_idx ≡ cursor_after p cnt r)
claim_next_lem p start cnt r v (missing e none_run) none_fit =
    (p, ground arith, Searched-Full v e (none_fit e), ground arith)
claim_next_lem p start cnt r v (found _ q run _) none_fit =
    let (c, ec, fill) = bitmap_set_multiple_lem p.used_map r cnt true v.valid q in
    let real : r ≢ bitmap_error = omega (arith, v.valid.room) in
    let no_wrap : u32 (r + cnt) ≡ r + cnt = omega (arith, v.valid.room) in
    (
      record p {
        used_map = c;
        next_fit_start_idx = if leb p.used_map.bit_cnt (r + cnt) then 0 else r + cnt;
      },
      rw (no_wrap, ec) (ground arith),
      Searched-Placed q run fill (ground arith) refl refl,
      ground arith,
    )

FirstRun-Full :
    {b : Bitmap} {cnt r : ℕ} → IsValid b → FirstRun b 0 cnt false r → r ≡ bitmap_error → Full b cnt
FirstRun-Full v (found _ fits _ _) e = absurd (omega (arith, v.room))
FirstRun-Full v (missing _ none_run) e = λ i. none_run i (omega arith)

-- find_next_fit returns the first free run from the cursor on, else the first of all, else reports
-- that there is none, and moves the cursor behind what it claims.
pub find_next_fit_lem :
    (p : Pool) (cnt : ℕ)
    → IsPool p
    → Searches (find_next_fit p cnt) (λ r q.
      Searched p cnt r q
      × NextRun p.used_map p.next_fit_start_idx cnt r
      × (q.next_fit_start_idx ≡ cursor_after p cnt r))
unfolding find_next_fit
find_next_fit_lem p cnt v =
    let (r, e, f) = bitmap_scan_lem p.used_map p.next_fit_start_idx cnt false v.valid v.cursor in
    rw e (second r f)
  where
    second :
        (r : ℕ)
        → FirstRun p.used_map p.next_fit_start_idx cnt false r
        → Searches
            ((if r == bitmap_error then bitmap_scan p.used_map 0 cnt false else ok r) >>= λ i.
              claim_next p i cnt)
            (λ r q.
              Searched p cnt r q
              × NextRun p.used_map p.next_fit_start_idx cnt r
              × (q.next_fit_start_idx ≡ cursor_after p cnt r))
    second r (found a b run c) =
        let f = found a b run c in
        let real : r ≢ bitmap_error = omega (arith, v.valid.room) in
        let is_real : (r == bitmap_error) ≡ false = ground arith in
        let (q, eq, s, cur) =
          claim_next_lem p p.next_fit_start_idx cnt r v f (λ e. absurd (real e)) in
        (r, q, rw is_real eq, (s, ahead real f, cur))
    second r (missing e none_run) =
        let (r', e', f) = bitmap_scan_lem p.used_map 0 cnt false v.valid (omega arith) in
        let no_run : FirstRun p.used_map p.next_fit_start_idx cnt false bitmap_error =
          missing refl none_run in
        let is_missing : (r == bitmap_error) ≡ true = ground arith in
        let (q, eq, s, cur) = claim_next_lem p 0 cnt r' v f (FirstRun-Full v.valid f) in
        (r', q, rw (is_missing, e') eq, (s, around no_run f, cur))
