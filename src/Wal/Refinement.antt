-- ===== src/Wal/Refinement.antt =====
-- The log against its contract: its calls and its recovery keep the ledger.
use open_fabric.Common.{
  ℕ, suc, ◌+◌, ◌<◌, ◌≤◌, ◌≡◌, refl, sym, ap, subst, ◌∙◌, Bool, true, false, List, [], ◌∷◌, ◌++◌,
  arith, String, All, All-append, All-map,
}
use open_fabric.Wal.Entry.{Entry, EntryType, Codec, IsCodec}
use open_fabric.Wal.Recovery.{holds, recover_pending, pending_of, settled, contains, is_pending}
use open_fabric.Wal.Log.{
  Wal, open_wal, recover_lsn, max_lsn, ok, uint64, pending_entry, commit_entry, abort_entry,
  write_entry,
}
use open_fabric.Wal.Image.{
  Fits, image, image-append_one, writable-Fits, with_checksum-checked, read_file-image_nil,
}
use open_fabric.Wal.Scan.{read_file}
use open_fabric.Wal.Compaction.{
  checkpoint_lem, pending_of-Fits, pending_of-pending_of, settled-pending_of,
}
use open_fabric.Wal.Settled.{
  remove, Settles, contains-settled, committed-Settles, aborted-Settles, pending-settles_none,
  pending_of-pending, pending_of-Settles,
}
use open_fabric.Wal.Ledger.{
  Call, perform, perform_all, Ledger, post, post_all, Permitted, last_after, AllPermitted,
  StandsFor, appends, commits, aborts, compacts,
}

-- The log after a whole line has been written under the number `own`.
abbrev grown : Wal → ℕ → List ℕ → Wal
grown w own line = record w { lsn = own; file = w.file ++ (line ++ 10 ∷ []) }

next_number : (n last : ℕ) → n ≡ last → suc last < 18446744073709551616 → uint64 (n + 1) ≡ suc last
next_number n last e h = omega arith

module _ (c : Codec) (w : Wal) (last : ℕ) (open_file : (w.attached ≡ true) × (w.usable ≡ true))
    (next : uint64 (w.lsn + 1) ≡ suc last) where
  -- Each call writes its entry, and does nothing else but count.
  abbrev Writes : Call → Entry → Type 0
  Writes k e =
      (f : Fits c e)
      → (n : ℕ) × (perform c w k ≡ record (grown w (suc last) f.line) { committed_n = n })

  perform-appends :
      (kind : EntryType) (entity : String) (payload : List ℕ) (now : ℕ)
      → Writes
          (appends kind entity payload now)
          (pending_entry c (suc last) kind entity payload now)
  unfolding perform write_entry
  perform-appends kind entity payload now =
      subst
        (λ own.
          (f : Fits c (pending_entry c own kind entity payload now))
          → (n : ℕ) × (perform c w (appends kind entity payload now)
              ≡ record (grown w own f.line) { committed_n = n }))
        next (λ f. (w.committed_n, ground (arith, f.written)))

  perform-commits :
      (lsn : ℕ) (entity : String) (now : ℕ)
      → Writes (commits lsn entity now) (commit_entry c (suc last) lsn entity now)
  unfolding perform write_entry
  perform-commits lsn entity now =
      subst
        (λ own.
          (f : Fits c (commit_entry c own lsn entity now))
          → (n : ℕ) × (perform c w (commits lsn entity now)
              ≡ record (grown w own f.line) { committed_n = n }))
        next (λ f. ((perform c w (commits lsn entity now)).committed_n, ground (arith, f.written)))

  perform-aborts :
      (lsn : ℕ) (entity reason : String) (now : ℕ)
      → Writes (aborts lsn entity reason now) (abort_entry c (suc last) lsn entity reason now)
  unfolding perform write_entry
  perform-aborts lsn entity reason now =
      subst
        (λ own.
          (f : Fits c (abort_entry c own lsn entity reason now))
          → (n : ℕ) × (perform c w (aborts lsn entity reason now)
              ≡ record (grown w own f.line) { committed_n = n }))
        next (λ f. (w.committed_n, ground (arith, f.written)))

module _ (c : Codec) (w : Wal) (l : Ledger) (s : StandsFor c w l) where
  -- The log after an entry has been written, given what the entry does to the pending ones.
  stands_after :
      (w' : Wal) (e : Entry) (f : Fits c e) (n : ℕ) (begun : List Entry)
      → w' ≡ record (grown w (suc l.last) f.line) { committed_n = n }
      → begun ≡ pending_of c (s.entries ++ e ∷ [])
      → ((n : ℕ) → contains n (settled c (s.entries ++ e ∷ [])) ≡ true → n ≤ suc l.last)
      → StandsFor c w' (record { last = suc l.last; begun = begun })
  stands_after w' e f n begun same b below = rw same (record {
    entries = s.entries ++ e ∷ [];
    file_eq = rw s.file_eq (sym (image-append_one c s.entries e f));
    all_fit = All-append (Fits c) s.entries (e ∷ []) s.all_fit (f, tt);
    open_file = s.open_file;
    number = refl;
    begun_eq = b;
    settled_below = below;
  })

  append_stands :
      (e : Entry)
      → is_pending e.status ≡ true
      → e.lsn ≡ suc l.last
      → (l.begun ++ e ∷ [] ≡ pending_of c (s.entries ++ e ∷ []))
        × ((n : ℕ) → contains n (settled c (s.entries ++ e ∷ [])) ≡ true → n ≤ suc l.last)
  append_stands e p own =
      let fresh : contains e.lsn (settled c s.entries) ≡ false =
        ground (arith, s.settled_below e.lsn) in
      (
        ap (λ xs. xs ++ e ∷ []) s.begun_eq ∙ sym (pending_of-pending c s.entries e p fresh),
        λ n h. ground (
          arith,
          contains-settled c s.entries e n,
          pending-settles_none c e n p,
          s.settled_below n,
        ),
      )

  settle_stands :
      (e : Entry) (lsn : ℕ)
      → Settles c lsn e
      → lsn ≤ l.last
      → (remove lsn l.begun ≡ pending_of c (s.entries ++ e ∷ []))
        × ((n : ℕ) → contains n (settled c (s.entries ++ e ∷ [])) ≡ true → n ≤ suc l.last)
  settle_stands e lsn st below = (
    ap (remove lsn) s.begun_eq ∙ sym (pending_of-Settles c s.entries e lsn st),
    λ n h. ground (arith, contains-settled c s.entries e n, st.1 n, s.settled_below n),
  )

-- One permitted call keeps the log and the ledger together.
perform_stands :
    (c : Codec) (codec : IsCodec c) (w : Wal) (l : Ledger) (k : Call)
    → StandsFor c w l
    → suc l.last < 18446744073709551616
    → Permitted c l.last k
    → StandsFor c (perform c w k) (post c l k)
unfolding post perform contains
perform_stands c codec w l (appends kind entity payload now) s room writable =
    let f = writable-Fits c codec _ (with_checksum-checked c _) writable in
    let (n, same) =
      perform-appends c w l.last s.open_file (next_number w.lsn l.last s.number room) kind entity
        payload now f in
    let (begun, below) = append_stands c w l s _ refl refl in
    stands_after c w l s _ _ f n _ same begun below
perform_stands c codec w l (commits lsn entity now) s room (writable, given, old) =
    let f = writable-Fits c codec _ (with_checksum-checked c _) writable in
    let (n, same) =
      perform-commits c w l.last s.open_file (next_number w.lsn l.last s.number room) lsn entity now
        f in
    let settles = committed-Settles c _ lsn refl (codec.committed_refs lsn) given in
    let (begun, below) = settle_stands c w l s _ lsn settles old in
    stands_after c w l s _ _ f n _ same begun below
perform_stands c codec w l (aborts lsn entity reason now) s room (writable, plain, given, old) =
    let f = writable-Fits c codec _ (with_checksum-checked c _) writable in
    let (n, same) =
      perform-aborts c w l.last s.open_file (next_number w.lsn l.last s.number room) lsn entity
        reason now f in
    let settles = aborted-Settles c _ lsn refl (codec.aborted_refs lsn reason plain) given in
    let (begun, below) = settle_stands c w l s _ lsn settles old in
    stands_after c w l s _ _ f n _ same begun below
perform_stands c codec w l compacts s room p =
    rw (checkpoint_lem c w s.entries s.file_eq s.all_fit) (record {
      entries = pending_of c s.entries;
      file_eq = refl;
      all_fit = pending_of-Fits c s.entries s.all_fit;
      open_file = (refl, refl);
      number = s.number;
      begun_eq = s.begun_eq ∙ sym (pending_of-pending_of c s.entries);
      settled_below = rw (settled-pending_of c s.entries) (λ n h. cc);
    })

post-last : (c : Codec) (l : Ledger) (k : Call) → (post c l k).last ≡ last_after l.last k
unfolding post
post-last c l (appends kind entity payload now) = refl
post-last c l k = refl

perform_all_stands :
    (c : Codec) (codec : IsCodec c) (w : Wal) (l : Ledger) (ks : List Call)
    → StandsFor c w l
    → AllPermitted c l.last ks
    → StandsFor c (perform_all c w ks) (post_all c l ks)
unfolding perform_all post_all
perform_all_stands c codec w l [] s p = s
perform_all_stands c codec w l (k ∷ ks) s p =
    perform_all_stands c codec (perform c w k) (post c l k) ks
      (perform_stands c codec w l k s p.0 p.1) (rw (post-last c l k) p.2)

-- Recovery of the file of a log that stands for a ledger.
stands_recovers :
    (c : Codec) (w : Wal) (l : Ledger)
    → StandsFor c w l
    → recover_pending c (holds w.file) ≡ record { entries = l.begun; failed = false }
unfolding recover_pending
stands_recovers c w l s =
    let read = ap (read_file c) s.file_eq ∙ read_file-image_nil c s.entries s.all_fit in
    rw (read, ← s.begun_eq)

-- With a codec that keeps its laws, a log that stands for a ledger is taken through calls of which
-- each is permitted when it comes, compactions among them, with every write succeeding: entries are
-- writable, the numbers settled were given before, and the counter stays below 2 ^ 64. Recovery of
-- its file then reports no error and exactly the entries that the ledger holds: those begun and not
-- settled, in the order in which they began.
pub recover_pending-ledger :
    (c : Codec) (codec : IsCodec c) (w : Wal) (l : Ledger) (ks : List Call)
    → StandsFor c w l
    → AllPermitted c l.last ks
    → recover_pending c (holds (perform_all c w ks).file)
      ≡ record { entries = (post_all c l ks).begun; failed = false }
recover_pending-ledger c codec w l ks s p =
    stands_recovers c _ _ (perform_all_stands c codec w l ks s p)

max_lsn-bound : (es : List Entry) → All (λ e. e.lsn ≤ max_lsn es) es
unfolding max_lsn
max_lsn-bound [] = tt
max_lsn-bound (e ∷ es) = (
  ground arith,
  All-map (λ (x : Entry). x.lsn ≤ max_lsn es) (λ (x : Entry). x.lsn ≤ max_lsn (e ∷ es)) es
      (λ x h. ground arith) (max_lsn-bound es),
)

-- `Open` on a file of well-written entries, of which those that settle numbers name none above the
-- last number in the file, gives a log that stands for the entries not settled, under a last number
-- that no entry of the file exceeds.
pub open_wal-image :
    (c : Codec) (es : List Entry)
    → All (Fits c) es
    → ((n : ℕ) → contains n (settled c es) ≡ true → n ≤ max_lsn es)
    → (w : Wal) × (open_wal c (holds (image c es)) ≡ ok w)
      × StandsFor c w (record { last = max_lsn es; begun = pending_of c es })
      × All (λ e. e.lsn ≤ w.lsn) es
unfolding open_wal recover_lsn
open_wal-image c es fit below =
    let number = ap (λ (r : List Entry × Bool). max_lsn r.0) (read_file-image_nil c es fit) in
    (
      record {
        file = image c es;
        attached = true;
        usable = true;
        lsn = max_lsn es;
        committed_n = 0;
      },
      rw number,
      record {
        entries = es;
        file_eq = refl;
        all_fit = fit;
        open_file = (refl, refl);
        number = refl;
        begun_eq = refl;
        settled_below = below;
      },
      max_lsn-bound es,
    )
