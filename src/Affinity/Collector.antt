-- ===== src/Affinity/Collector.antt =====
-- The life of the collecting goroutine of affinity/store.go: `StartGC`, `gcLoop` and `Stop`, as the
-- steps of its threads in any order. The two channels of a start have one number. `none` is a panic:
-- a channel that is closed twice, or that is nil.
pub mod Lifecycle
use geo_proxy.Common.{
  ℕ, suc, ◌+◌, ◌≡◌, Bool, true, false, ◌&&◌, not, List, [], ◌∷◌, Option, none, some, if◌then◌else◌,
  ltb, ◌==◌,
}
use geo_proxy.Common.Int.{ℤ, pos, leb_ℤ}

-- `loops` are the goroutines in `gcLoop`, `closing` the calls of `Stop` that are past their critical
-- section, `waiting` those that wait for the goroutine's end.
pub record Collector : Type 0 where
  pub gc_started : Bool
  pub channels : Option ℕ
  pub next : ℕ
  pub stops_closed : List ℕ
  pub dones_closed : List ℕ
  pub loops : List ℕ
  pub closing : List ℕ
  pub waiting : List ℕ

abbrev pub new_collector : Collector
new_collector = record {
  gc_started = false;
  channels = none;
  next = 0;
  stops_closed = [];
  dones_closed = [];
  loops = [];
  closing = [];
  waiting = [];
}

pub times : ℕ → List ℕ → ℕ
times g [] = 0
times g (x ∷ xs) = let n = times g xs in if x == g then suc n else n

abbrev pub among : ℕ → List ℕ → Bool
among g xs = ltb 0 (times g xs)

pub take_out : ℕ → List ℕ → List ℕ
take_out g [] = []
take_out g (x ∷ xs) = let rest = take_out g xs in if x == g then xs else x ∷ rest

pub start_gc : ℤ → Collector → Collector
start_gc interval s = if leb_ℤ interval (pos 0) then s else if s.gc_started then s else record s {
  gc_started = true;
  channels = some s.next;
  next = suc s.next;
  loops = s.next ∷ s.loops;
}

stop_channels : Option ℕ → Collector → Option Collector
stop_channels none s = none
stop_channels (some g) s =
    some (record s { gc_started = false; channels = none; closing = g ∷ s.closing })

-- `Stop` up to its unlock.
pub stop_begin : Collector → Option Collector
unfolding stop_channels
stop_begin s = if not s.gc_started then some s else stop_channels s.channels s

-- `close(stopCh)` by a call of `Stop`.
pub stop_close : ℕ → Collector → Option Collector
unfolding times take_out
stop_close g s =
    if not (among g s.closing)
    then some s
    else if among g s.stops_closed
    then none
    else some (record s {
      closing = take_out g s.closing;
      stops_closed = g ∷ s.stops_closed;
      waiting = g ∷ s.waiting;
    })

-- `gcLoop` sees that its channel is closed, and closes the other on its return.
pub loop_end : ℕ → Collector → Option Collector
unfolding times take_out
loop_end g s =
    if not (among g s.loops && among g s.stops_closed)
    then some s
    else if among g s.dones_closed
    then none
    else some (record s { loops = take_out g s.loops; dones_closed = g ∷ s.dones_closed })

-- `<-doneCh` lets a call of `Stop` return.
pub stop_return : ℕ → Collector → Option Collector
unfolding times take_out
stop_return g s =
    if not (among g s.waiting && among g s.dones_closed)
    then some s
    else some (record s { waiting = take_out g s.waiting })

pub data Event : Type 0 where
  starts : ℤ → Event
  stops : Event
  closes ends returns : ℕ → Event

-- A step of a thread that is not there changes nothing.
pub event : Event → Collector → Option Collector
unfolding start_gc stop_begin stop_close loop_end stop_return
event (starts interval) s = some (start_gc interval s)
event stops s = stop_begin s
event (closes g) s = stop_close g s
event (ends g) s = loop_end g s
event (returns g) s = stop_return g s

pub events : List Event → Option Collector → Option Collector
unfolding event
events es none = none
events [] (some s) = some s
events (e ∷ es) (some s) = events es (event e s)
