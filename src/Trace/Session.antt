-- ===== src/Trace/Session.antt =====
-- From the recorder to the hub: the file that record.rs writes, opened, imported and browsed by
-- trace_query.rs.
use pin_bridge.Common.{
  ℕ, suc, ◌+◌, ◌≤◌, ◌<◌, ◌^◌, ◌≡◌, refl, sym, ap, ◌∙◌, List, [], ◌∷◌, ◌++◌, map, append_assoc, Bool,
  false, subst, ap₂, Option, none, some, arith, All, All-imp, keep, keep-map, concat, length,
  length-map, append-nil, ltb, ok, All-append,
}
use pin_bridge.Wire.Bytes.{AreBytes, le_bytes, le_bytes-AreBytes}
use pin_bridge.Wire.Record.{EventRecord, encode, decode, image, InRange, event_wire_len}
use pin_bridge.Wire.Record.RoundTrip.{decode-encode_record, length-image}
use pin_bridge.Event.{Event, to_record}
use pin_bridge.Ring.Holds.{number}
use pin_bridge.Recorder.Tape.{session_tape}
use pin_bridge.Recorder.Tape.Order.{Ascends, session_tape-Ascends}
use pin_bridge.Trace.{Record}
use pin_bridge.Trace.Artifact.{
  header_image, max_meta_len, record_len, Source, metadata_json, open_trace,
}
use pin_bridge.Trace.Artifact.Reads.{open_trace-header_image}
use pin_bridge.Trace.Store.{Sqlite, Serves}
use pin_bridge.Trace.Import.{parse_record, build_database}
use pin_bridge.Trace.Import.Fill.{Steady, at}
use pin_bridge.Trace.Import.Whole.{IsWhole}
use pin_bridge.Trace.Import.Rows.{Rising, build_database_lem}
use pin_bridge.Trace.Query.{Predicate, browse}
use pin_bridge.Trace.Query.Matching.{wanted, InWidth, IsRecord}
use pin_bridge.Trace.Query.Pages.{browse-filter}

-- The hub's view of a record of the wire protocol.
unfoldable pub from_wire : EventRecord → Record
from_wire r = record {
  sequence = r.sequence;
  kind = r.kind;
  thread_id = r.thread_id;
  address = r.address;
  args = r.arg0 ∷ r.arg1 ∷ r.arg2 ∷ r.arg3 ∷ r.arg4 ∷ r.arg5 ∷ r.arg6 ∷ r.arg7 ∷ [];
}

-- `Option::map`.
abbrev pub map_option : {A : Type 0} {B : Type 0} → (A → B) → Option A → Option B
map_option f none = none
map_option f (some a) = some (f a)

-- On the bytes of one record the hub's own `parse_record` reads what the protocol's `decode` does.
pub parse_record-decode :
    (bytes : List ℕ)
    → length bytes ≡ record_len
    → map_option from_wire (decode bytes) ≡ some (parse_record bytes)
unfolding decode from_wire parse_record
parse_record-decode bytes e =
    let long : ltb (length bytes) event_wire_len ≡ false = rw e refl in rw long refl

-- `write_record`: the record of an event in the scratch buffer.
unfoldable pub record_bytes : Event → List ℕ
record_bytes e = encode (to_record e) []

-- What `drain_main` leaves in the file.
unfoldable pub trace_file : List ℕ → List Event → List ℕ
unfolding record_bytes
trace_file meta tape = header_image meta ++ concat (map record_bytes tape)

image-AreBytes : (r : EventRecord) → AreBytes (image r)
unfolding image
image-AreBytes r =
    let word : (w v : ℕ) (xs : List ℕ) → AreBytes xs → AreBytes (le_bytes w v ++ xs) =
      λ w v xs h. All-append (λ b. b < 256) (le_bytes w v) xs (le_bytes-AreBytes w v) h in
    word 8 _ _ (
      word 4 _ _ (
        word 4 _ _ (
          word 8 _ _ (
            word 8 _ _ (
              word 8 _ _ (
                word 8 _ _
                  (word 8 _ _ (word 8 _ _ (word 8 _ _ (word 8 _ _ (le_bytes-AreBytes 8 _)))))))))))

record_bytes-IsRecord : (e : Event) → IsRecord (record_bytes e)
unfolding record_bytes encode
record_bytes-IsRecord e = (length-image (to_record e), image-AreBytes (to_record e))

parse_record-record_bytes :
    (e : Event) → InRange (to_record e) → parse_record (record_bytes e) ≡ from_wire (to_record e)
unfolding record_bytes
parse_record-record_bytes e h =
    let (read, _) = decode-encode_record (to_record e) [] h in
    let again : decode (encode (to_record e) []) ≡ some (to_record e) =
      ap decode (sym (append-nil (encode (to_record e) []))) ∙ read in
    let both = parse_record-decode (encode (to_record e) []) (record_bytes-IsRecord e).0 in
    let same : some (parse_record (encode (to_record e) [])) ≡ some (from_wire (to_record e)) =
      sym both ∙ ap (map_option from_wire) again in
    cc same

abbrev pub Sent : Event → Type 0
Sent e = InRange (to_record e)

record_bytes-sequence : (e : Event) → Sent e → (parse_record (record_bytes e)).sequence ≡ e.sequence
unfolding from_wire to_record
record_bytes-sequence e h = ap (λ (r : Record). r.sequence) (parse_record-record_bytes e h)

Ascends-Rising :
    (lo hi : ℕ) (es : List Event)
    → hi < 2 ^ 63
    → All Sent es
    → Ascends lo es hi
    → Rising (suc lo) (map record_bytes es) × (lo ≤ hi)
Ascends-Rising lo hi [] small h asc = (tt, asc)
Ascends-Rising lo hi (e ∷ es) small h asc =
    let (rest, up) = Ascends-Rising e.sequence hi es small h.1 asc.1 in
    let same = record_bytes-sequence e h.0 in
    ((omega (arith, same, asc.0), omega (arith, same), rw same rest), omega (arith, asc.0))

pub record_bytes-All : (es : List Event) → All IsRecord (map record_bytes es)
record_bytes-All [] = tt
record_bytes-All (e ∷ es) = (record_bytes-IsRecord e, record_bytes-All es)

map-parse :
    (es : List Event)
    → All Sent es
    → map parse_record (map record_bytes es) ≡ map (λ e. from_wire (to_record e)) es
map-parse [] h = refl
map-parse (e ∷ es) h = ap₂ ◌∷◌ (parse_record-record_bytes e h.0) (map-parse es h.1)

-- The records of a session's tape, as the hub shows them.
abbrev pub shown : List Event → List Record
shown = map (λ e. from_wire (to_record e))

pub session_tape-Rising :
    (kinds_mask : ℕ) (log : List Event)
    → length log < 2 ^ 62
    → All Sent (session_tape kinds_mask (length log) (length log) (number 0 log))
    → Rising 0 (map record_bytes (session_tape kinds_mask (length log) (length log) (number 0 log)))
session_tape-Rising kinds_mask log small sent =
    let (first, rest, e, z, asc) = session_tape-Ascends kinds_mask log (omega arith) in
    rw e (
      let ok_all : All Sent (first ∷ rest) = subst (All Sent) e sent in
      let zero = record_bytes-sequence first ok_all.0 in
      let (up, _) = Ascends-Rising 0 (length log + 1) rest (omega arith) ok_all.1 asc in
      (omega arith, omega (arith, zero, z), rw (zero, z) up))

module _ (is_json is_utf8 : List ℕ → Bool) (q : Sqlite) (serves : Serves q) (grants : ℕ → Option ℕ)
    (steady : Steady grants) where
  -- For a session of the recorder whose events have the Rust types' ranges, fewer than 2^62 of them,
  -- with metadata of at most 1 MiB that serde_json accepts, and for a file cut short inside the
  -- record after the last: the hub opens the file, imports every record of the session without a key
  -- collision, counts the bytes of the cut record, and going through the pages of any query then
  -- shows exactly the session's records that the query asks for, in the order they were recorded.
  pub session-browsed :
      (kinds_mask : ℕ) (log : List Event) (meta json tail : List ℕ) (predicate : Predicate)
      (limit : ℕ)
      → length log < 2 ^ 62
      → All Sent (session_tape kinds_mask (length log) (length log) (number 0 log))
      → length meta ≤ max_meta_len
      → metadata_json is_json is_utf8 meta ≡ ok json
      → length tail < record_len
      → InWidth predicate
      → 1 ≤ limit
      → limit ≤ 256
      → (s : Source) × (d : q.Database) × (open_trace is_json is_utf8 (
            at
              (trace_file meta (session_tape kinds_mask (length log) (length log) (number 0 log))
                ++ tail)
              0
              grants)
          ≡ ok (s, json))
        × (build_database q s
            ≡ ok (record {
              database = d;
              physical_records =
                  length (session_tape kinds_mask (length log) (length log) (number 0 log));
              truncated_tail = length tail;
            }))
        × (browse q d predicate limit
              (suc (length (session_tape kinds_mask (length log) (length log) (number 0 log))))
              0
            ≡ ok (
                keep
                  (wanted predicate)
                  (shown (session_tape kinds_mask (length log) (length log) (number 0 log)))))
  unfolding trace_file
  session-browsed kinds_mask log meta json tail predicate limit few sent small valid short width
        some_rows few_rows =
      let tape = session_tape kinds_mask (length log) (length log) (number 0 log) in
      let cs = map record_bytes tape in
      let rising = session_tape-Rising kinds_mask log few sent in
      let are = record_bytes-All tape in
      let opened =
        open_trace-header_image is_json is_utf8 (at (trace_file meta tape ++ tail) 0 grants) meta
          (concat cs ++ tail) json (append_assoc (header_image meta) (concat cs) tail) small
          valid in
      let (d, built, stored) =
        build_database_lem q serves grants cs tail 0 steady
          (All-imp IsRecord IsWhole cs (λ c h. h.0) are) short rising in
      let listed =
        browse-filter q serves d cs are rising stored predicate width limit some_rows few_rows in
      let count : length cs ≡ length tape = length-map record_bytes tape in
      let kept : map parse_record (keep (λ c. wanted predicate (parse_record c)) cs)
          ≡ keep (wanted predicate) (shown tape) =
        sym (
          keep-map parse_record (wanted predicate) (λ c. wanted predicate (parse_record c)) cs
            (All-imp IsRecord _ cs (λ c h. refl) are))
        ∙ ap (keep (wanted predicate)) (map-parse tape sent) in
      (
        at (concat cs ++ tail) 0 grants,
        d,
        opened,
        rw (← count) built,
        rw (← count) (listed ∙ ap ok kept),
      )
