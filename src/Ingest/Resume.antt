-- ===== src/Ingest/Resume.antt =====
-- Recorded ingestion: the rows of its runs, and a pair whose payload was read before.
use betpulse.Prelude.{
  ℕ, suc, ◌≤◌, ◌≡◌, refl, ◌∙◌, sym, ap, subst, Bool, true, false, Option, none, some, List, [], ◌∷◌,
  ==_refl, ◌&&◌, not, length, count_if, is_some, is_some_eq, select, All, arith, if◌then◌else◌,
}
use betpulse.Ingest.Action.{Action, Result, ok, err}
use betpulse.Ingest.Seasons.{Text, eqb_text}
use betpulse.Ingest.Model.{Tables, Summary, LeagueMeta}
use betpulse.Ingest.Runner.{
  IngestionRun, is_running, is_success, success, unchanged, partial, unsupported_league, Database,
  Source, league_meta, from_result, ingest_dtos, ended, ingest_content, ingest_payload,
  ingest_covered, ingest_pair, is_candidate_sha, latest_of, sha_of, last_success_sha,
}
use betpulse.Ingest.Pairs.{new_run, settle, run_pair, run_pairs}
use betpulse.Ingest.Triples.{Triple, After, After-same, bind, answer}
use betpulse.Ingest.Rows.{if_either, select-All}

abbrev Any : Tables → Type 0
Any t = Unit

anything : {A : Type 0} (m : Action Tables A) → Triple Any Any m (λ _. Any)
anything m = record { ends = λ t h. After-same Any (m t).0 (m t).1 tt }

-- The run is over; it keeps its pair, and a success has read the payload and stored its hash.
abbrev pub Over : Source → IngestionRun → IngestionRun → Type 0
Over source run run' =
    (is_running run'.status ≡ false)
    × (run'.id ≡ run.id)
    × (run'.provider ≡ run.provider)
    × (run'.league ≡ run.league)
    × (run'.season ≡ run.season)
    × (run'.started_at ≡ run.started_at)
    × (is_success run'.status ≡ true
        → (is_some (league_meta run.league) ≡ true)
          × ((content : Text) × (source.csv_source run.league run.season ≡ ok content)
              × (run'.content_sha256 ≡ some (source.sha256 content))))

ended-Over :
    (source : Source) (run : IngestionRun) (content : Text) (n : ℕ) (summary : Summary)
    → is_some (league_meta run.league) ≡ true
    → source.csv_source run.league run.season ≡ ok content
    → Over source run
        (ended n summary (record run { content_sha256 = some (source.sha256 content) }))
ended-Over source run content n summary covered read =
    (ground arith, refl, refl, refl, refl, refl, λ h. (covered, (content, read, refl)))

ingest_payload-Over :
    (source : Source) (runs : List IngestionRun) (force : Bool) (run : IngestionRun)
    (content : Text)
    → is_some (league_meta run.league) ≡ true
    → source.csv_source run.league run.season ≡ ok content
    → Triple Any Any (ingest_payload source runs force run content) (λ run' _. Over source run run')
unfolding ingest_payload ingest_content
ingest_payload-Over source runs force run content covered read =
    let sha = source.sha256 content in
    let hashed = record run { content_sha256 = some sha } in
    if_either
      (λ (m : Action Tables IngestionRun). Triple Any Any m (λ run' _. Over source run run'))
      (not force
        && is_some_eq (last_success_sha run.provider run.league run.season run.id runs) sha)
      (answer
        (record hashed { status = success; skipped_reason = some unchanged; records = some 0 })
        (λ t h. (refl, refl, refl, refl, refl, refl, λ h. (covered, (content, read, refl)))))
      (bind (anything (from_result (source.parse_csv content run.league run.season))) (λ dtos.
        bind (anything (ingest_dtos source run.league dtos)) (λ summary.
          answer (ended (length dtos) summary hashed)
            (λ t h. ended-Over source run content (length dtos) summary covered read))))

from_result_gives : {A : Type 0} (r : Result A) → Triple Any Any (from_result r) (λ a _. r ≡ ok a)
from_result_gives (ok a) = record { ends = λ t h. refl }
from_result_gives (err e) = record { ends = λ t h. tt }

ingest_covered-Over :
    (source : Source) (runs : List IngestionRun) (force : Bool) (run : IngestionRun)
    (meta : Option LeagueMeta)
    → league_meta run.league ≡ meta
    → Triple Any Any (ingest_covered source runs force run meta) (λ run' _. Over source run run')
ingest_covered-Over source runs force run none h =
    answer (record run { status = partial; skipped_reason = some unsupported_league })
      (λ t h. (refl, refl, refl, refl, refl, refl, λ h. absurd (cc)))
ingest_covered-Over source runs force run (some meta) h =
    bind (from_result_gives (source.csv_source run.league run.season)) (λ content. record {
      ends = λ t read.
          (ingest_payload-Over source runs force run content (ap is_some h) read).ends t tt;
    })

settle-Over :
    (source : Source) (run : IngestionRun) (before after : Tables) (r : Result IngestionRun)
    → After Any (λ run' _. Over source run run') r after
    → Over source run (settle run before (r, after)).0
unfolding settle
settle-Over source run before after (ok run') h = h
settle-Over source run before after (err e) h =
    (refl, refl, refl, refl, refl, refl, λ h. absurd (cc))

run_pair-Over :
    (source : Source) (force : Bool) (triggered_by : Option ℕ) (league : ℕ) (season : Text)
    (db : Database)
    → Over source
        (new_run source db.next_run triggered_by league season)
        (run_pair source force triggered_by league season db).0
unfolding run_pair ingest_pair
run_pair-Over source force triggered_by league season db =
    let run = new_run source db.next_run triggered_by league season in
    let (r, after) = ingest_pair source (run ∷ db.runs) force run db.tables in
    settle-Over source run db.tables after r (
      (ingest_covered-Over source (run ∷ db.runs) force run (league_meta league) refl).ends
        db.tables tt)

run_pair_stored :
    (source : Source) (force : Bool) (triggered_by : Option ℕ) (league : ℕ) (season : Text)
    (db : Database)
    → let (run, db') = run_pair source force triggered_by league season db in
      db'.runs ≡ run ∷ db.runs
unfolding run_pair settle
run_pair_stored source force triggered_by league season db = refl

abbrev pub pairs_recorded : List IngestionRun → List (ℕ × Text)
pairs_recorded [] = []
pairs_recorded (run ∷ runs) = (run.league, run.season) ∷ pairs_recorded runs

-- The stored rows after the rows of a call, the last one first.
abbrev pub stored_after : List IngestionRun → List IngestionRun → List IngestionRun
stored_after [] stored = stored
stored_after (run ∷ runs) stored = stored_after runs (run ∷ stored)

-- However the pairs of a call end, each of them has one row, in the order of the pairs, and no row of
-- the call is left running; and exactly these rows are stored, before those that were stored already,
-- so that the table has as many running rows as it had.
pub run_pairs_recorded :
    (source : Source) (force : Bool) (triggered_by : Option ℕ) (pairs : List (ℕ × Text))
    (db : Database)
    → let (runs, db') = run_pairs source force triggered_by pairs db in
      (pairs_recorded runs ≡ pairs)
      × All (λ run. is_running run.status ≡ false) runs
      × (db'.runs ≡ stored_after runs db.runs)
      × (count_if (λ run. is_running run.status) db'.runs
          ≡ count_if (λ run. is_running run.status) db.runs)
unfolding run_pairs
run_pairs_recorded source force triggered_by [] db = (refl, tt, refl, refl)
run_pairs_recorded source force triggered_by ((league, season) ∷ pairs) db =
    let over = run_pair-Over source force triggered_by league season db in
    let stored = run_pair_stored source force triggered_by league season db in
    let (run, db') = run_pair source force triggered_by league season db in
    let (recorded, finished, kept, running) =
      run_pairs_recorded source force triggered_by pairs db' in
    let (runs, after) = run_pairs source force triggered_by pairs db' in
    (
      cc (over.3, over.4, recorded),
      (over.0, finished),
      kept ∙ ap (stored_after runs) stored,
      running ∙ ap (count_if (λ r. is_running r.status)) stored ∙ ground (arith, over.0),
    )

latest_of_first :
    (run : IngestionRun) (runs : List IngestionRun)
    → All (λ r. r.started_at ≤ run.started_at) runs
    → latest_of run runs ≡ run
latest_of_first run [] h = refl
latest_of_first run (r ∷ runs) (h, rest) = ground (arith, h, latest_of_first run runs rest)

eqb_text_refl : (xs : Text) → eqb_text xs xs ≡ true
eqb_text_refl [] = refl
eqb_text_refl (x ∷ xs) = ground (arith, eqb_text_refl xs)

select_second :
    {A : Type 0} (p : A → Bool) (x y : A) (xs : List A)
    → p x ≡ false
    → p y ≡ true
    → select p (x ∷ y ∷ xs) ≡ y ∷ select p xs
select_second p x y xs out in_ = ground (arith, out, in_)

latest_sha :
    (run new : IngestionRun) (runs : List IngestionRun) (sha : ℕ)
    → is_success new.status ≡ false
    → is_success run.status ≡ true
    → run.content_sha256 ≡ some sha
    → run.provider ≡ new.provider
    → run.league ≡ new.league
    → run.season ≡ new.season
    → new.id ≡ suc run.id
    → All (λ r. r.started_at ≤ run.started_at) runs
    → last_success_sha new.provider new.league new.season new.id (new ∷ run ∷ runs) ≡ some sha
unfolding last_success_sha
latest_sha run new runs sha fresh done hashed provider league season next before =
    let p = is_candidate_sha new.provider new.league new.season new.id in
    let out : p new ≡ false = ground (arith, fresh) in
    let same : eqb_text run.season new.season ≡ true =
      ap (eqb_text run.season) (sym season) ∙ eqb_text_refl run.season in
    let in_ : p run ≡ true = ground (arith, done, hashed, next, provider, league, same) in
    let chosen = latest_of_first run (select p runs) (select-All _ p runs before) in
    ap sha_of (select_second p new run runs out in_) ∙ ap (λ r. r.content_sha256) chosen ∙ hashed

abbrev skip : Source → IngestionRun → Text → IngestionRun
skip source run content = record run {
  content_sha256 = some (source.sha256 content);
  status = success;
  skipped_reason = some unchanged;
  records = some 0;
}

ingest_payload_unchanged :
    (source : Source) (runs : List IngestionRun) (run : IngestionRun) (content : Text) (t : Tables)
    → last_success_sha run.provider run.league run.season run.id runs ≡ some (source.sha256 content)
    → ingest_payload source runs false run content t ≡ (ok (skip source run content), t)
unfolding ingest_payload
ingest_payload_unchanged source runs run content t h =
    let sha = source.sha256 content in
    let again = ap (λ o. is_some_eq o sha) h ∙ ==_refl sha in
    let hashed = record run { content_sha256 = some sha } in
    ap
      (λ b.
        (if b
            then (λ (s : Tables). (ok (skip source run content), s))
            else ingest_content source content hashed)
          t)
      again

ingest_covered_unchanged :
    (source : Source) (runs : List IngestionRun) (run : IngestionRun) (meta : Option LeagueMeta)
    (content : Text) (t : Tables)
    → is_some meta ≡ true
    → source.csv_source run.league run.season ≡ ok content
    → last_success_sha run.provider run.league run.season run.id runs ≡ some (source.sha256 content)
    → ingest_covered source runs false run meta t ≡ (ok (skip source run content), t)
ingest_covered_unchanged source runs run none content t covered read h = absurd (cc)
ingest_covered_unchanged source runs run (some meta) content t covered read h =
    rw read (ingest_payload_unchanged source runs run content t h)

-- Resumability: a pair that ended as a success, run again without `force` on the payload that the
-- source still delivers, is skipped as unchanged and leaves the tables as they are, where every
-- earlier run had started by the time that the first of the two did.
pub run_pair_again :
    (source : Source) (force : Bool) (triggered_by again_by : Option ℕ) (league : ℕ) (season : Text)
    (db : Database)
    → is_success (run_pair source force triggered_by league season db).0.status ≡ true
    → All (λ r. r.started_at ≤ source.started_at db.next_run) db.runs
    → let db' = (run_pair source force triggered_by league season db).1 in
      let (run, db'') = run_pair source false again_by league season db' in
      (db''.tables ≡ db'.tables)
      × (is_success run.status ≡ true)
      × (run.skipped_reason ≡ some unchanged)
      × (run.records ≡ some 0)
unfolding run_pair settle ingest_pair
run_pair_again source force triggered_by again_by league season db done before =
    let over = run_pair-Over source force triggered_by league season db in
    let (covered, found) = over.6 done in
    let (run, db') = run_pair source force triggered_by league season db in
    let new = new_run source (suc db.next_run) again_by league season in
    let same_start = subst (λ k. All (λ r. r.started_at ≤ k) db.runs) (sym over.5) before in
    let sha =
      latest_sha run new db.runs (source.sha256 found.0) refl done found.2 over.2 over.3 over.4
        (ap suc (sym over.1)) same_start in
    let again =
      ingest_covered_unchanged source (new ∷ run ∷ db.runs) new (league_meta league) found.0
        db'.tables covered found.1 sha in
    subst
      (λ (p : Result IngestionRun × Tables).
        ((settle new db'.tables p).1 ≡ db'.tables)
        × (is_success (settle new db'.tables p).0.status ≡ true)
        × ((settle new db'.tables p).0.skipped_reason ≡ some unchanged)
        × ((settle new db'.tables p).0.records ≡ some 0))
      (sym again) (refl, refl, refl, refl)
