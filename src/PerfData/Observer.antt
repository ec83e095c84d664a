-- ===== src/PerfData/Observer.antt =====
-- snail/perf_data/dispatching_event_observer.{hpp,cpp}: handlers of events by type.
use snail_server.Common.{ℕ, List, [], ◌∷◌, ◌++◌, Option, none, some}
use snail_server.Common.AssocMap.{lookup, insert}
use snail_server.Common.Bytes.{ByteOrder}
use snail_server.Common.Run.{Run, finished, ◌>>=◌}
use snail_server.PerfData.Attributes.{PerfError, EventAttributes}

-- Handlers change a state.
abbrev pub KernelHandler : Type 0 → Type 0
KernelHandler S = EventAttributes → List ℕ → ByteOrder → S → Run PerfError S

abbrev pub NonKernelHandler : Type 0 → Type 0
NonKernelHandler S = List ℕ → ByteOrder → S → Run PerfError S

pub record DispatchingEventObserver (S : Type 0) : Type 0 where
  pub kernel_handlers : List (ℕ × List (KernelHandler S))
  pub non_kernel_handlers : List (ℕ × List (NonKernelHandler S))

abbrev pub handlers_or_none {ℓ} : {A : Type ℓ} → Option (List A) → List A
handlers_or_none none = []
handlers_or_none (some hs) = hs

module _ {S : Type 0} where
  unfoldable pub run_kernel_handlers :
      List (KernelHandler S) → EventAttributes → List ℕ → ByteOrder → S → Run PerfError S
  run_kernel_handlers [] attributes event_data order s = finished s
  run_kernel_handlers (h ∷ hs) attributes event_data order s =
      h attributes event_data order s >>= run_kernel_handlers hs attributes event_data order

  unfoldable pub run_handlers : List (NonKernelHandler S) → List ℕ → ByteOrder → S → Run PerfError S
  run_handlers [] event_data order s = finished s
  run_handlers (h ∷ hs) event_data order s =
      h event_data order s >>= run_handlers hs event_data order

  abbrev pub handle_kernel :
      DispatchingEventObserver S → ℕ → EventAttributes → List ℕ → ByteOrder → S → Run PerfError S
  handle_kernel o type = run_kernel_handlers (handlers_or_none (lookup type o.kernel_handlers))

  abbrev pub handle_other :
      DispatchingEventObserver S → ℕ → List ℕ → ByteOrder → S → Run PerfError S
  handle_other o type = run_handlers (handlers_or_none (lookup type o.non_kernel_handlers))

  -- A view of a record, or a record that is parsed, is made of the event first.
  abbrev pub register_kernel_event :
      {E : Type 0}
      → ℕ
      → (EventAttributes → List ℕ → ByteOrder → Run PerfError E)
      → (E → S → Run PerfError S)
      → DispatchingEventObserver S
      → DispatchingEventObserver S
  register_kernel_event type parse handler o = record o {
    kernel_handlers =
        insert type
          (handlers_or_none (lookup type o.kernel_handlers)
            ++ (λ attributes event_data order s.
                parse attributes event_data order >>= (λ e. handler e s))
              ∷ [])
          o.kernel_handlers;
  }

  abbrev pub register_other_event :
      {E : Type 0}
      → ℕ
      → (List ℕ → ByteOrder → Run PerfError E)
      → (E → S → Run PerfError S)
      → DispatchingEventObserver S
      → DispatchingEventObserver S
  register_other_event type parse handler o = record o {
    non_kernel_handlers =
        insert type
          (handlers_or_none (lookup type o.non_kernel_handlers)
            ++ (λ event_data order s. parse event_data order >>= (λ e. handler e s)) ∷ [])
          o.non_kernel_handlers;
  }
