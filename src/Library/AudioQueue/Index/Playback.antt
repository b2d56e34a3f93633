-- ===== src/Library/AudioQueue/Index/Playback.antt =====
-- What `playback_order` of src/library/audio_queue.rs finds.
use plain_rs.Common.{
  subst, ℕ, zero, suc, ◌≡◌, refl, ap, sym, ◌∙◌, Bool, true, false, ◌&&◌, ◌||◌, List, Option, none,
  some, str_eq_iff, arith, leb, Bool-cases, inl, inr, length, get_elem?, is_empty, length-map, ltb,
  ◌==◌,
}
use plain_rs.Common.Int.{ℤ, pos, negsuc, leb_ℤ, to_usize, leb-pos}
use plain_rs.Library.Outcome.{LibraryResult, ok}
use plain_rs.Library.Tables.{
  QueueSourceKind, playlist, library, QueueSource, LibraryDb, all_queue_items, get_source,
  save_source, playlist_items,
}
use plain_rs.Library.AudioQueue.{
  AudioTrack, of_playlist_item, LibraryTracks, holds, source_size_of, current_pos_in_source, pos_in,
  library_pos, relocate, playback_order,
}
use plain_rs.Library.AudioQueue.Index.{
  IsIndex, Reads, ReadsIn, head_of, before, order_of, count_to, count_to-map, position-before,
  count_to-le, count_to-get_elem?, has_path, path_of,
}

-- The order is that of `tracks` and the queue with the current track's head. Only the position that
-- the source row caches may change.
pub record Ordered (lib : LibraryTracks) (db : LibraryDb) (tracks : List AudioTrack) : Type 0 where
  pub src : QueueSource
  pub after : LibraryDb
  pub runs : playback_order lib db ≡ (
    ok (order_of src (head_of (get_source db).current_path tracks) tracks (all_queue_items db)),
    after,
  )
  pub kind : src.source ≡ (get_source db).source
  pub path : src.current_path ≡ (get_source db).current_path
  pub reads : Reads lib after src tracks
  pub queued : all_queue_items after ≡ all_queue_items db

-- What the search for the current track leaves: the position of the last track of a head of `h`.
record Placed (m : LibraryDb → LibraryResult (ℤ × QueueSource) × LibraryDb) (db : LibraryDb)
    (src : QueueSource) (h : ℕ) : Type 0 where
  src' : QueueSource
  after : LibraryDb
  runs : m db ≡ (ok (before h, src'), after)
  kind : src'.source ≡ src.source
  path : src'.current_path ≡ src.current_path
  id : src'.playlist_id ≡ src.playlist_id
  sort : src'.sort_by ≡ src.sort_by
  queued : all_queue_items after ≡ all_queue_items db
  items : after.items ≡ db.items

leb_zero : (c : ℕ) → leb 0 c ≡ true
leb_zero c = ground arith

module _ (lib : LibraryTracks) (db : LibraryDb) (src : QueueSource) (tracks : List AudioTrack) where
  transfer :
      {m m' : LibraryDb → LibraryResult (ℤ × QueueSource) × LibraryDb} {h : ℕ}
      → m' db ≡ m db
      → Placed m db src h
      → Placed m' db src h
  transfer e p = record {
    src' = p.src';
    after = p.after;
    runs = e ∙ p.runs;
    kind = p.kind;
    path = p.path;
    id = p.id;
    sort = p.sort;
    queued = p.queued;
    items = p.items;
  }

  -- The source and the tables stay as they are.
  unmoved :
      (m : LibraryDb → LibraryResult (ℤ × QueueSource) × LibraryDb) (h : ℕ)
      → m db ≡ (ok (before h, src), db)
      → Placed m db src h
  unmoved m h e = record {
    src' = src;
    after = db;
    runs = e;
    kind = refl;
    path = refl;
    id = refl;
    sort = refl;
    queued = refl;
    items = refl;
  }

  abbrev found : ℕ
  found = count_to (has_path src.current_path) tracks

  module _ (ix : IsIndex lib src.sort_by tracks) where
    relocate-Placed : (n : ℕ) → found ≡ n → Placed (relocate lib src) db src n
    unfolding relocate before
    relocate-Placed zero e =
        unmoved (relocate lib src) zero
          (rw (ix.locate src.current_path, position-before (has_path src.current_path) tracks, e))
    relocate-Placed (suc c) e = record {
      src' = record src { current_index = pos c };
      after = save_source (record src { current_index = pos c }) db;
      runs = rw (
        ix.locate src.current_path,
        position-before (has_path src.current_path) tracks,
        e,
        leb-pos 0 c,
        leb_zero c,
      );
      kind = refl;
      path = refl;
      id = refl;
      sort = refl;
      queued = unfold all_queue_items save_source in refl;
      items = unfold save_source in refl;
    }

    -- A cached position that holds the current path is the position of the current track.
    cached_right :
        (i : ℕ) (o : Option AudioTrack)
        → get_elem? tracks i ≡ o
        → holds lib src.current_path (path_of o) ≡ true
        → found ≡ suc i
    cached_right i none e h = cc
    cached_right i (some a) e h =
        let same : a.path ≡ src.current_path = (str_eq_iff a.path src.current_path).0 h in
        ap (λ p. count_to (has_path p) tracks) (sym same)
        ∙ count_to-get_elem? tracks i a ix.unique e

    cached_before :
        (c : ℤ)
        → leb_ℤ (pos 0) c ≡ true
        → holds lib src.current_path (path_of (get_elem? tracks (to_usize c))) ≡ true
        → c ≡ before found
    unfolding before
    cached_before (pos i) e h = sym (ap before (cached_right i (get_elem? tracks i) refl h))
    cached_before (negsuc i) e h = absurd (ground arith)

    abbrev inside : Bool
    inside = leb_ℤ (pos 0) src.current_index && ltb (to_usize src.current_index) (length tracks)

    abbrev held : Bool
    held = holds lib src.current_path (path_of (get_elem? tracks (to_usize src.current_index)))

    &&-left : (a b : Bool) → (a && b) ≡ true → a ≡ true
    &&-left a b h = ground arith

    library_pos-Placed : Placed (library_pos lib src (length tracks)) db src found
    unfolding library_pos
    library_pos-Placed = elim (Bool-cases inside) [
      | inr out ↦ transfer (rw out) (relocate-Placed found refl)
      | inl in_range ↦ elim (Bool-cases held) [
        | inr no_hit ↦
            transfer (rw (in_range, ix.path_at (to_usize src.current_index), no_hit))
              (relocate-Placed found refl)
        | inl hit ↦ unmoved _ found (
            rw (in_range, ix.path_at (to_usize src.current_index), hit)
              (ap (λ c. (ok (c, src), db))
                (cached_before src.current_index (&&-left _ _ in_range) hit)))
      ]
    ]

  pos_in-Placed :
      (k : QueueSourceKind)
      → ReadsIn k lib db src tracks
      → Placed (pos_in lib k src (length tracks)) db src found
  unfolding pos_in
  pos_in-Placed playlist r = unmoved _ found (
      ap (λ c. (ok (c, src), db))
        (position-before _ (playlist_items db src.playlist_id)
          ∙ ap before (
              sym (count_to-map src.current_path (playlist_items db src.playlist_id))
              ∙ ap (count_to (has_path src.current_path)) (sym r))))
  pos_in-Placed library r = transfer refl (library_pos-Placed r)
  pos_in-Placed QueueSourceKind.none r = unmoved _ found (unfold before count_to in ground arith)

  no_head :
      (is_empty src.current_path || length tracks == 0) ≡ true
      → negsuc 0 ≡ before (head_of src.current_path tracks)
  unfolding before head_of
  no_head h = ground (arith, count_to-le (has_path src.current_path) tracks)

  some_head :
      (is_empty src.current_path || length tracks == 0) ≡ false
      → found ≡ head_of src.current_path tracks
  unfolding head_of
  some_head h = ground arith

  current_pos_in_source-Placed :
      ReadsIn src.source lib db src tracks
      → Placed
          (current_pos_in_source lib src (length tracks))
          db
          src
          (head_of src.current_path tracks)
  unfolding current_pos_in_source
  current_pos_in_source-Placed r =
      elim (Bool-cases (is_empty src.current_path || length tracks == 0)) [
        | inl nothing ↦ unmoved _ _ (rw nothing (ap (λ c. (ok (c, src), db)) (no_head nothing)))
        | inr looked ↦ rw (← some_head looked) (transfer (rw looked) (pos_in-Placed src.source r))
      ]

  source_size_of_lem :
      (k : QueueSourceKind)
      → ReadsIn k lib db src tracks
      → source_size_of lib k src db ≡ ok (length tracks)
  unfolding source_size_of
  source_size_of_lem playlist r =
      ap ok (sym (ap length r ∙ length-map of_playlist_item (playlist_items db src.playlist_id)))
  source_size_of_lem library r = r.count
  source_size_of_lem QueueSourceKind.none r = ap (λ ts. ok (length ts)) (sym r)

  -- The same tracks are read from a source and tables that agree on what names them.
  reads_kept :
      (k : QueueSourceKind) (src' : QueueSource) (after : LibraryDb)
      → src'.playlist_id ≡ src.playlist_id
      → src'.sort_by ≡ src.sort_by
      → after.items ≡ db.items
      → ReadsIn k lib db src tracks
      → ReadsIn k lib after src' tracks
  unfolding playlist_items
  reads_kept playlist src' after e f g r = rw (e, g) r
  reads_kept library src' after e f g r = rw f r
  reads_kept QueueSourceKind.none src' after e f g r = r

-- `playback_order` succeeds on any source whose tracks can be read.
pub ordered :
    (lib : LibraryTracks) (db : LibraryDb) (tracks : List AudioTrack)
    → Reads lib db (get_source db) tracks
    → Ordered lib db tracks
unfolding playback_order
ordered lib db tracks r =
    let p : Placed _ db (get_source db) _ =
      current_pos_in_source-Placed lib db (get_source db) tracks r in
    record {
      src = p.src';
      after = p.after;
      runs = rw (source_size_of_lem lib db (get_source db) tracks (get_source db).source r, p.runs);
      kind = p.kind;
      path = p.path;
      reads =
          subst (λ k. ReadsIn k lib p.after p.src' tracks) (sym p.kind)
            (reads_kept lib db (get_source db) tracks (get_source db).source p.src' p.after p.id
              p.sort p.items r);
      queued = p.queued;
    }
