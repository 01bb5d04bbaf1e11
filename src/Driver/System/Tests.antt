-- ===== src/Driver/System/Tests.antt =====
-- A registration and what it leaves.
use linber.Prelude.{refl, []}
use linber.Strings.{strcmp}
use linber.Services.{get_service_node, insert_service_node}
use linber.Tree.{descend}
use linber.Tree.Plain.{plain}
use linber.Driver.Client.{linber_register_service}
use linber.Driver.Kernel.{lock_linber, unlock_linber, update}
use linber.Driver.Ioctl.{linber_ioctl, handle}
use linber.Driver.Lifecycle.{create_service, link_service, find_service}
use linber.Driver.Params.{Ioctl, register_service}
use linber.Driver.Tests.{calm, boot, uri, state, registered}
use linber.Driver.Workers.{service_check_worker}
use linber.Driver.System.Live.{Live, rights-Live}
use linber.Driver.System.Reach.{
  System, Reached, boots, steps_to, Step, call, SoundSystem, Reached-SoundSystem, loaded,
}

abbrev before_call : System
before_call = record { memory = loaded boot; tasks = [] }

abbrev after_call : System
after_call = record { memory = state registered; tasks = [] }

abbrev registers : Ioctl
registers = register_service uri (record {
  max_working = 2;
  ptr_service_token = 300;
  exec_time_ns = 5;
  service_period_ns = 100;
  service_budget_ns = 10;
})

called : Step before_call after_call
unfolding linber_ioctl handle linber_register_service find_service lock_linber unlock_linber
    get_service_node create_service link_service insert_service_node descend plain strcmp update
called = call (calm 1 0) registers before_call after_call refl

reached : Reached after_call
reached = steps_to before_call after_call (boots boot) called

Reached-SoundSystem_example : SoundSystem after_call
Reached-SoundSystem_example = Reached-SoundSystem after_call reached

rights-Live_example : Live uri 1002 0 (state registered)
unfolding linber_ioctl handle linber_register_service find_service lock_linber unlock_linber
    get_service_node create_service link_service insert_service_node descend plain strcmp update
    service_check_worker
rights-Live_example = rights-Live after_call uri 1002 77 0 reached refl refl refl
