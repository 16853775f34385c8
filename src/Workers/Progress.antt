-- ===== src/Workers/Progress.antt =====
-- One call of a task, where the disk does not fail and the queue has room: it returns, and the
-- values that the keys will have stay the same.
use mathlib.Core.List.{foldl}
use mathlib.Core.Path.{subst}
use async_wal_db.Prelude.{
  ℕ, ◌+◌, ◌^◌, ◌≤◌, ◌<◌, ◌≡◌, refl, ap, ◌∙◌, arith, List, [], ◌∷◌, ◌++◌, ◌||◌, length,
  length-append, All, All-append, sym,
}
use async_wal_db.Entry.{Bytes, WalEntry, tx_id_of}
use async_wal_db.Frame.{Codec}
use async_wal_db.Store.{redo}
use async_wal_db.Wal.{flush}
use async_wal_db.Wal.Holds.{CanEncode, Holds, append-Holds, flush-Holds}
use async_wal_db.Wal.Room.{append_room, flush-Shorter}
use async_wal_db.Database.{Database, pure}
use async_wal_db.Database.Chain.{>>=-ok}
use async_wal_db.Transaction.{
  Transaction, World, begin_transaction, add_entry, stamp, append_op, commit,
}
use async_wal_db.Transaction.Success.{append_op-ok, commit-ok}
use async_wal_db.Session.Open.{IsCalm, CanWrite-some}
use async_wal_db.Workers.{Worker, idle, working, unwrap, work, began}
use async_wal_db.Workers.Values.{
  Gives, will_set, sets, sets_any, sets_job, promised, redo-promised, apply_entries-Gives,
  stamp-Gives,
}
use async_wal_db.Workers.Logged.{IsLogged, IsLogged-own, Gives-IsPlain, commit-InLog}
use async_wal_db.Workers.Grown.{Grown, same-Grown}
use async_wal_db.Workers.Ready.{SerializesCommits, IsJob, IsBusy, IsReady, held, Runs, Worked}

module _ (c : Codec) (value : Bytes → Bytes) (m others : ℕ) (world : World) (db : Database)
    (total : List WalEntry) (calm : IsCalm world) (runs : Runs c total db)
    (clock : world.timestamp < 2 ^ 64) (markers : SerializesCommits c)
    (room : length db.wal.pending < db.wal.max_queue_size) where
  begins :
      (ops : List WalEntry) (jobs : List (List WalEntry))
      → All (IsJob c value m) (ops ∷ jobs)
      → length db.wal.pending ≤ others
      → Worked c value m others world (idle (ops ∷ jobs)) db total
  unfolding work began begin_transaction
  begins ops jobs ready queued = record {
    after = (begin_transaction db).0;
    worker = working (begin_transaction db).1 ops jobs;
    total = total;
    returned = refl;
    runs = record { holds = runs.holds; writable = runs.writable; counter = omega arith };
    ready = record {
      is_active = refl;
      word = runs.counter;
      given = tt;
      each = ready.0.each;
      short = omega (arith, ready.0.short);
      later = ready.1;
    };
    queued = omega arith;
    one_less = omega arith;
    same_size = refl;
    kept = λ k later. refl;
    grown = same-Grown total _ _ (λ k. refl) (λ l k h. absurd (cc (h)));
  }

  moved :
      (k : Bytes) (entries : List WalEntry) (op e : WalEntry) (ops : List WalEntry)
      (jobs : List (List WalEntry))
      → sets k e ≡ sets k op
      → (sets_any k (entries ++ e ∷ []) || sets_any k ops || sets_job k jobs)
        ≡ (sets_any k entries || sets_any k (op ∷ ops) || sets_job k jobs)
  moved k [] op e ops jobs h = ground (arith, h)
  moved k (x ∷ entries) op e ops jobs h = ground (arith, moved k entries op e ops jobs h)

  appended-Grown :
      (tx : Transaction) (op e : WalEntry) (ops : List WalEntry) (jobs : List (List WalEntry))
      → Gives value e
      → tx_id_of e ≡ tx.id
      → ((k : Bytes) → sets k e ≡ sets k op)
      → Grown value total
          (total ++ e ∷ [])
          (λ k. will_set k (working tx (op ∷ ops) jobs))
          (λ k. will_set k (working (add_entry tx e) ops jobs))
          (IsLogged total (working tx (op ∷ ops) jobs))
          (IsLogged (total ++ e ∷ []) (working (add_entry tx e) ops jobs))
  unfolding add_entry
  appended-Grown tx op e ops jobs g own same = record {
    more = e ∷ [];
    extends = refl;
    plain = (Gives-IsPlain value e g, tt);
    no_others = λ k h. let s = same k in ground arith;
    fewer = λ k h. sym (moved k tx.entries op e ops jobs (same k)) ∙ h;
    logged = λ l. IsLogged-own value tx.id tx.entries total e g own l;
    committed = λ k l h f. absurd (cc (h, f, moved k tx.entries op e ops jobs (same k)));
  }

  committed-Grown :
      (tx : Transaction) (jobs : List (List WalEntry))
      → let e = WalEntry.commit tx.id world.timestamp in
        Grown value total
          (total ++ e ∷ [])
          (λ k. will_set k (working tx [] jobs))
          (λ k. will_set k (idle jobs))
          (IsLogged total (working tx [] jobs))
          (IsLogged (total ++ e ∷ []) (idle jobs))
  committed-Grown tx jobs = record {
    more = WalEntry.commit tx.id world.timestamp ∷ [];
    extends = refl;
    plain = (tt, tt);
    no_others = λ k h. absurd (cc (h));
    fewer = λ k h. ground arith;
    logged = λ l. tt;
    committed = λ k l h f. commit-InLog k total tx.id world.timestamp (l k (ground arith));
  }

  has_room : db.wal.pending_count < db.wal.max_queue_size
  has_room = omega (arith, runs.holds.settled.exact)

  appends :
      (tx : Transaction) (op : WalEntry) (ops : List WalEntry) (jobs : List (List WalEntry))
      → IsBusy c value m tx (op ∷ ops) jobs
      → length db.wal.pending ≤ length tx.entries + others
      → Worked c value m others world (working tx (op ∷ ops) jobs) db total
  unfolding work unwrap add_entry pure
  appends tx op ops jobs b queued =
      let st = stamp-Gives value tx.id world.timestamp op b.each.0.gives in
      let e = st.entry in
      let can =
        CanWrite-some c (stamp tx.id world.timestamp op) e st.is_stamped
          (b.each.0.writes tx.id world.timestamp b.word clock) in
      let added = append_room c world.while_waiting e db.wal has_room in
      let w = record db.wal {
        pending = db.wal.pending ++ e ∷ [];
        pending_count = db.wal.pending_count + 1;
      } in
      let holds =
        subst (λ r. Holds c r.0 (total ++ e ∷ [])) added
          (append-Holds c world.while_waiting e db.wal total calm.waiting runs.holds runs.writable
            (ap (λ r. r.1) added)) in
      let done = append_op-ok c world tx db op e w st.is_stamped added in
      record {
        after = record db { wal = w };
        worker = working (add_entry tx e) ops jobs;
        total = total ++ e ∷ [];
        returned =
            >>=-ok (unwrap (append_op c world tx op)) (λ tx'. pure (working tx' ops jobs)) db
              (record db { wal = w }) (add_entry tx e) (rw done);
        runs = record {
          holds = holds;
          writable = All-append (CanEncode c) total (e ∷ []) runs.writable (can, tt);
          counter = runs.counter;
        };
        ready = record {
          is_active = b.is_active;
          word = b.word;
          given = All-append (Gives value) tx.entries (e ∷ []) b.given (st.gives, tt);
          each = b.each.1;
          short = omega (arith, b.short, length-append tx.entries (e ∷ []));
          later = b.later;
        };
        queued =
            omega (arith, length-append db.wal.pending (e ∷ []), length-append tx.entries (e ∷ []));
        one_less = omega arith;
        same_size = refl;
        kept = λ k later.
            ap (λ b. promised value k (b || later) db.store)
              (moved k tx.entries op e ops jobs (st.same k));
        grown = appended-Grown tx op e ops jobs st.gives st.own st.same;
      }

  commits :
      (tx : Transaction) (jobs : List (List WalEntry))
      → IsBusy c value m tx [] jobs
      → Worked c value m others world (working tx [] jobs) db total
  unfolding work unwrap pure
  commits tx jobs b =
      let e = WalEntry.commit tx.id world.timestamp in
      let can = markers tx.id world.timestamp b.word clock in
      let added = append_room c world.while_waiting e db.wal has_room in
      let w1 = record db.wal {
        pending = db.wal.pending ++ e ∷ [];
        pending_count = db.wal.pending_count + 1;
      } in
      let holds =
        subst (λ r. Holds c r.0 (total ++ e ∷ [])) added
          (append-Holds c world.while_waiting e db.wal total calm.waiting runs.holds runs.writable
            (ap (λ r. r.1) added)) in
      let writable = All-append (CanEncode c) total (e ∷ []) runs.writable (can, tt) in
      let w2 = (flush c world.while_polling world.disk w1).0 in
      let (flushed, emptied, held_all) =
        flush-Holds c world.while_polling world.disk w1 (total ++ e ∷ []) calm.polling calm.flushing
          holds writable in
      let applied = apply_entries-Gives value tx.entries (record db { wal = w2 }) b.given in
      let after = record db { wal = w2; store = foldl redo db.store tx.entries } in
      let done =
        commit-ok c world tx db w1 w2 after b.is_active added (ap (λ r. (w2, r)) flushed) applied in
      record {
        after = after;
        worker = idle jobs;
        total = total ++ e ∷ [];
        returned =
            >>=-ok (unwrap (commit c world tx)) (λ u. pure (idle jobs)) db after tt (rw done);
        runs = record { holds = held_all; writable = writable; counter = runs.counter };
        ready = b.later;
        queued = omega (arith, ap (length {A = WalEntry}) emptied);
        one_less = omega arith;
        same_size = (flush-Shorter c world.while_polling world.disk w1).same_size;
        kept = λ k later.
            redo-promised value k tx.entries (sets_job k jobs || later) db.store b.given
            ∙ ap (λ b. promised value k b db.store) (ground arith);
        grown = committed-Grown tx jobs;
      }

  -- Whatever call of its a task makes next, it returns.
  pub work-Worked :
      (w : Worker)
      → IsReady c value m w
      → length db.wal.pending ≤ held w + others
      → Worked c value m others world w db total
  unfolding work pure
  work-Worked (idle []) r q = record {
    after = db;
    worker = idle [];
    total = total;
    returned = refl;
    runs = runs;
    ready = tt;
    queued = q;
    one_less = omega arith;
    same_size = refl;
    kept = λ k later. refl;
    grown = same-Grown total _ _ (λ k. refl) (λ l. l);
  }
  work-Worked (idle (ops ∷ jobs)) r q = begins ops jobs r (omega arith)
  work-Worked (working tx (op ∷ ops) jobs) r q = appends tx op ops jobs r q
  work-Worked (working tx [] jobs) r q = commits tx jobs r
