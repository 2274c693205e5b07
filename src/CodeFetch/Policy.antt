-- ===== src/CodeFetch/Policy.antt =====
-- What `publish` accepts, and what is then fetched.
use pin_bridge.Common.{◌+◌, ◌<◌, ◌≡◌, List, All, length, u64_mod, Result, ok, err}
use pin_bridge.CodeFetch.{NativeSegment, PublishError}
use pin_bridge.CodeFetch.Overlay.{Ordered}

-- A segment with bytes, its end below 2^64.
abbrev Sized : NativeSegment → Type 0
Sized s = (s.start < s.end) × (s.end ≡ s.start + length s.bytes) × (s.end < u64_mod)

abbrev AllSized : Result PublishError (List NativeSegment) → Type 0
AllSized (err e) = Unit
AllSized (ok ss) = All Sized ss

abbrev Accepted : Result PublishError (List NativeSegment) → Type 0
Accepted (err e) = Unit
Accepted (ok ss) = Ordered 0 ss
