-- ===== src/Affinity/Collector/Lifecycle.antt =====
-- No order of the steps of `StartGC`, `gcLoop` and `Stop` of affinity/store.go panics or leaks.
use geo_proxy.Common.{
  ℕ, ◌+◌, ◌≡◌, refl, Bool, true, false, ◌&&◌, not, List, [], ◌∷◌, Option, none, some, if◌then◌else◌,
  ltb, ◌==◌, is_some, arith, Bool-cases, inl, inr,
}
use geo_proxy.Common.Int.{ℤ}
use geo_proxy.Affinity.Collector.{
  Collector, new_collector, times, among, take_out, start_gc, stop_channels, stop_begin, stop_close,
  loop_end, stop_return, Event, starts, stops, closes, ends, returns, event, events,
}

abbrev pub owns : Option ℕ → ℕ → ℕ
owns none g = 0
owns (some h) g = if h == g then 1 else 0

abbrev born : Collector → ℕ → ℕ
born s g = if ltb g s.next then 1 else 0

-- Each start's channels are held once: the first by the store, by a call that will close it, or
-- among the closed ones; the other by its goroutine, or among the closed ones.
pub record Tidy (s : Collector) : Type 0 where
  pub stop_once :
      (g : ℕ) → owns s.channels g + times g s.closing + times g s.stops_closed ≡ born s g
  pub done_once : (g : ℕ) → times g s.loops + times g s.dones_closed ≡ born s g
  pub flag : s.gc_started ≡ is_some s.channels
  pub told : (g : ℕ) → among g s.waiting ≡ true → among g s.stops_closed ≡ true

times-take_out :
    (g h : ℕ) (xs : List ℕ)
    → among g xs ≡ true
    → times h xs ≡ times h (take_out g xs) + (if g == h then 1 else 0)
unfolding times take_out
times-take_out g h [] e = ground arith
times-take_out g h (x ∷ xs) e = ground (arith, times-take_out g h xs)

times-le : (g h : ℕ) (xs : List ℕ) → among h (take_out g xs) ≡ true → among h xs ≡ true
unfolding times take_out
times-le g h [] e = ground arith
times-le g h (x ∷ xs) e = ground (arith, times-le g h xs)

-- A step that does not panic and leaves a tidy store.
abbrev Fine : Option Collector → Type 0
Fine none = ⊥
Fine (some t) = Tidy t

unowned : (o : Option ℕ) (g : ℕ) → is_some o ≡ false → owns o g ≡ 0
unowned none g e = refl
unowned (some h) g e = absurd (ground arith)

start_gc-Tidy : (i : ℤ) (s : Collector) → Tidy s → Tidy (start_gc i s)
unfolding start_gc times
start_gc-Tidy i s v = record {
  stop_once = λ g. ground (arith, v.stop_once g, v.flag, unowned s.channels g);
  done_once = λ g. ground (arith, v.done_once g);
  flag = ground (arith, v.flag);
  told = λ g w. ground (arith, v.told g);
}

stop_channels-Fine :
    (o : Option ℕ) (s : Collector)
    → s.channels ≡ o
    → is_some o ≡ true
    → Tidy s
    → Fine (stop_channels o s)
unfolding stop_channels times
stop_channels-Fine none s e on v = absurd (ground arith)
stop_channels-Fine (some h) s e on v = record {
  stop_once = λ g. ground (arith, v.stop_once g, e);
  done_once = v.done_once;
  flag = refl;
  told = v.told;
}

stop_begin-Fine : (s : Collector) → Tidy s → Fine (stop_begin s)
unfolding stop_begin
stop_begin-Fine s v = started s.gc_started refl
  where
    started :
        (b : Bool) → s.gc_started ≡ b → Fine (if not b then some s else stop_channels s.channels s)
    started false off = v
    started true on = stop_channels-Fine s.channels s refl (ground (arith, v.flag)) v

stop_close-Fine : (g : ℕ) (s : Collector) → Tidy s → Fine (stop_close g s)
unfolding stop_close times
stop_close-Fine g s v = elim (Bool-cases (among g s.closing)) [
  | inr out ↦ rw out v
  | inl here ↦
      let open_yet : among g s.stops_closed ≡ false = ground (arith, v.stop_once g) in
      rw (here, open_yet)
        (record {
          stop_once = λ h. ground (arith, v.stop_once h, times-take_out g h s.closing here);
          done_once = v.done_once;
          flag = v.flag;
          told = λ h w. ground (arith, v.told h);
        })
]

loop_end-Fine : (g : ℕ) (s : Collector) → Tidy s → Fine (loop_end g s)
unfolding loop_end times
loop_end-Fine g s v = elim (Bool-cases (among g s.loops && among g s.stops_closed)) [
  | inr out ↦ rw out v
  | inl here ↦
      let runs : among g s.loops ≡ true = ground (arith, here) in
      let open_yet : among g s.dones_closed ≡ false = ground (arith, v.done_once g) in
      rw (here, open_yet)
        (record {
          stop_once = v.stop_once;
          done_once = λ h. ground (arith, v.done_once h, times-take_out g h s.loops runs);
          flag = v.flag;
          told = v.told;
        })
]

stop_return-Fine : (g : ℕ) (s : Collector) → Tidy s → Fine (stop_return g s)
unfolding stop_return
stop_return-Fine g s v = elim (Bool-cases (among g s.waiting && among g s.dones_closed)) [
  | inr out ↦ rw out v
  | inl here ↦ rw here (record {
    stop_once = v.stop_once;
    done_once = v.done_once;
    flag = v.flag;
    told = λ h w. v.told h (times-le g h s.waiting w);
  })
]

event-Fine : (e : Event) (s : Collector) → Tidy s → Fine (event e s)
unfolding event
event-Fine (starts i) s v = start_gc-Tidy i s v
event-Fine stops s v = stop_begin-Fine s v
event-Fine (closes g) s v = stop_close-Fine g s v
event-Fine (ends g) s v = loop_end-Fine g s v
event-Fine (returns g) s v = stop_return-Fine g s v

events-Fine : (es : List Event) (o : Option Collector) → Fine o → Fine (events es o)
unfolding events
events-Fine es none v = absurd v
events-Fine [] (some s) v = v
events-Fine (e ∷ es) (some s) v = events-Fine es (event e s) (event-Fine e s v)

-- What is promised of the threads.
abbrev pub Sound : Option Collector → Type 0
Sound none = ⊥
Sound (some s) =
    ((g : ℕ)
      → among g s.loops ≡ true
      → (times g s.loops ≡ 1)
        × (owns s.channels g + times g s.closing + times g s.stops_closed ≡ 1))
    × ((g : ℕ)
        → among g s.waiting ≡ true
        → (among g s.stops_closed ≡ true) × (times g s.loops + times g s.dones_closed ≡ 1))

Fine-Sound : (o : Option Collector) → Fine o → Sound o
Fine-Sound none v = v
Fine-Sound (some s) v = (
  λ g h. (ground (arith, v.done_once g), ground (arith, v.done_once g, v.stop_once g)),
  λ g w. (v.told g w, ground (arith, v.told g, v.done_once g, v.stop_once g)),
)

-- Whatever calls of `StartGC` and `Stop` there are and in whatever order the steps of all threads
-- come: none closes a channel twice or a nil one; each goroutine that runs runs once and is the
-- store's, or its stop channel is closed, or a call of `Stop` is about to close it, exactly one of the
-- three; and a call of `Stop` waits only for a goroutine whose stop channel is closed and that runs
-- or has ended.
pub events-Sound : (es : List Event) → Sound (events es (some new_collector))
unfolding times
events-Sound es = Fine-Sound _ (
    events-Fine es (some new_collector) (record {
      stop_once = λ g. ground arith;
      done_once = λ g. ground arith;
      flag = refl;
      told = λ g w. ground arith;
    }))
