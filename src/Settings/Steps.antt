-- ===== src/Settings/Steps.antt =====
-- lx.service.cpp: what happens to the service object while it runs.
use lxmax.Common.{false, if◌then◌else◌, List, [], ◌∷◌, if◌then◌else◌, drop, length}
use lxmax.Max.{System}
use lxmax.Service.{Tables, Service, Event, universes_updated}
use lxmax.Service.Linked.{attached_after}
use lxmax.Remote.Reach.{Message, write, step, write_universe}
use lxmax.Settings.{ServiceObject, from_service, from_universe_config, attr_modified, notify}
use lxmax.Settings.{Notice}
use lxmax.Settings.Loading.{ServiceSetting, service_attr_set}
use lxmax.Settings.Dictionary.{Files, qelem_save}

-- What happens to the service object: a write to one of its attributes, a message to `lx.config` or
-- a write to a stored configuration, or a run of the queue.
pub data Step : Type 0 where
  setting : ServiceSetting → Step
  message : Message → Step
  queue : Step

-- What `lx_service_notify` makes of the events that the calls of lx_service.c send.
unfoldable pub notified : List Event → ServiceObject → ServiceObject
notified [] x = x
notified (universes_updated ∷ es) x = notified es (notify from_service Notice.universes_updated x)
notified (_ ∷ es) x = notified es x

module _ (sys : System) (tables : Tables) (files : Files) where
  -- The object with the service that a call leaves, and with the notifications among its events.
  unfoldable pub after_call : ServiceObject → Service → ServiceObject
  unfolding notified
  after_call x s = notified (drop (length x.service.events) s.events) (record x { service = s })

  -- After a write to an attribute the SDK sends `attr_modified`: of the service object to itself, of a
  -- configuration to what is attached to it. The other messages notify as their calls do.
  unfoldable pub happen : Message → ServiceObject → ServiceObject
  unfolding after_call
  happen (write name s) x =
      let y = record x { service = write_universe sys tables x.service name s } in
      if attached_after name false x.service.events
      then notify from_universe_config attr_modified y
      else y
  happen m x = after_call x (step sys tables x.service m)

  -- The queue runs what is pending.
  unfoldable pub settle : ServiceObject → ServiceObject
  settle x = if x.save_pending then qelem_save sys files x else x

  unfoldable pub run_steps : List Step → ServiceObject → ServiceObject
  unfolding happen settle
  run_steps [] x = x
  run_steps (setting s ∷ steps) x =
      run_steps steps (notify from_service attr_modified (service_attr_set sys x s))
  run_steps (message m ∷ steps) x = run_steps steps (happen m x)
  run_steps (queue ∷ steps) x = run_steps steps (settle x)
