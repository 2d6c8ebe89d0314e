-- ===== src/Service.antt =====
-- app/domain/services: the ports that the service calls (app/domain/ports.py), as calls that an
-- environment answers or fails from the trace of the calls before, and a method as an action
-- that returns or raises. The lock of the operator levels is held by one method at a time.
-- Times and durations are whole seconds.
pub mod Core
pub mod Moderation
pub mod Actions
pub mod Maintenance
pub mod Rules
pub mod Archives
pub mod Requests
use mc_admin.Base.{
  ◌≡◌, ◌⊎◌, inl, inr, refl, ℕ, Text, Bool, Option, none, some, List, [], ◌∷◌, if◌then◌else◌,
}
use mc_admin.Base.Dict.{Dict}
use mc_admin.Access.{Permission, User}

pub record AuditEntry : Type 0 where
  pub timestamp : ℕ
  pub username : Text
  pub role : Text
  pub action : Text
  pub target : Text
  pub outcome : Text
  pub detail : Text

pub record OpEntry : Type 0 where
  pub name : Text
  pub level : ℕ

pub record ScheduledRestart : Type 0 where
  pub restart_at : ℕ
  pub scheduled_by : Text
  pub defer_if_players : Bool

pub record RecurringRestart : Type 0 where
  pub time_hhmm : Text
  pub lead_seconds : ℕ
  pub defer_if_players : Bool

pub record PendingMaintenance : Type 0 where
  pub engage_at : ℕ
  pub requested_by : Text
  pub motd : Text
  pub kick : Text
  pub operation_id : Text
  pub defer_if_players : Bool

-- app/domain/model.py: an archive, the verdict on it, a profile and the operations on them; fields that
-- only the pages show are left out.
pub record BackupArchive : Type 0 where
  pub filename : Text
  pub size_bytes : ℕ
  pub created_at : ℕ

pub record ArchiveCheck : Type 0 where
  pub filename : Text
  pub is_ok : Bool
  pub size_bytes : ℕ
  pub detail : Text
  pub restorable : Option Bool
  pub archive_created_at : ℕ

pub record BackupProfile : Type 0 where
  pub id : Text
  pub name : Text
  pub include : List Text
  pub dest : Text
  pub hours : ℕ
  pub daily_at : Option Text
  pub retention_daily_days : ℕ
  pub retention_monthly_months : ℕ
  pub enabled : Bool
  pub last_run : Option ℕ

pub record BackupResult : Type 0 where
  pub started : Bool
  pub detail : Text

pub record BackupOutcome : Type 0 where
  pub kind : Text
  pub succeeded : Bool
  pub finished_at : ℕ
  pub archive : Option Text
  pub label : Text

pub record PendingRestore : Type 0 where
  pub filename : Text
  pub requested_by : Text
  pub deadline : ℕ
  pub operation_id : Text
  pub safety_archives_before : List Text

pub data Phase : Type 0 where
  restore_running waiting_minecraft success failed : Phase

pub record RestoreOperation : Type 0 where
  pub filename : Text
  pub requested_by : Text
  pub phase : Phase
  pub started_at : ℕ
  pub deadline : ℕ
  pub message : Text
  pub completed_at : Option ℕ
  pub operation_id : Text

pub record ContainerState : Type 0 where
  pub is_running : Bool
  pub health : Option Text

-- The containers that make a backup.
pub data Maker : Type 0 where
  safety_backup profile_backup : Maker

-- The commands of `GamePort` that name a player.
pub data Command : Type 0 where
  whitelist_add_command whitelist_remove_command op_command deop_command pardon_command :
      Text → Command
  kick_command ban_command : Text → Text → Command

abbrev pub player_of : Command → Text
player_of (whitelist_add_command name) = name
player_of (whitelist_remove_command name) = name
player_of (op_command name) = name
player_of (deop_command name) = name
player_of (pardon_command name) = name
player_of (kick_command name _) = name
player_of (ban_command name _) = name

pub data Level : Type 0 where
  info warning error : Level

-- A call that returns nothing.
pub data Order : Type 0 where
  audit_record : AuditEntry → Order
  notify : Text → Text → Level → Order
  say : Text → Order
  save_all : Order
  levels_set : Text → ℕ → Order
  levels_remove : Text → Order
  temp_bans_cancel : Text → Order
  temp_bans_schedule : Text → ℕ → Order
  apply_levels container_start container_restart doorman_release recurring_clear : Order
  container_stop : ℕ → Order
  doorman_engage : Text → Text → Order
  restart_schedule : ℕ → Text → ℕ → Bool → Order
  recurring_set : RecurringRestart → Order
  closing_schedule : ℕ → Text → Text → Text → ℕ → Bool → Order
  doorman_prime : Text → Text → Order
  restore_start : Text → Order

pub data Call : Type 0 where
  order : Order → Call
  game : Command → Call
  clock_now whitelist_list list_players list_ops list_bans levels_list temp_bans_pending : Call
  apply_running apply_exit_code doorman_running restart_status restart_cancel recurring_get : Call
  closing_status closing_cancel : Call
  closing_warning : ℕ → Call
  -- The alignment of the one-shot workers.
  worker_issues : Call
  archives_list checks_checking restore_exit_code container_status profiles_list : Call
  restore_worker_running safety_trigger safety_exit_code restore_worker_issues : Call
  maker_running : Maker → Call
  archive_path archive_delete archive_validate check_status profile_get : Text → Call

-- What a call gives when it returns.
abbrev pub Reply : Call → Type 0
Reply (game _) = Text
Reply clock_now = ℕ
Reply whitelist_list = List Text
Reply list_players = List Text
Reply list_ops = List OpEntry
Reply list_bans = List Text
Reply levels_list = List OpEntry
Reply temp_bans_pending = List Text
Reply apply_running = Bool
Reply apply_exit_code = Option ℕ
Reply doorman_running = Bool
Reply restart_status = Option ScheduledRestart
Reply restart_cancel = Bool
Reply recurring_get = Option RecurringRestart
Reply closing_status = Option PendingMaintenance
Reply closing_cancel = Bool
Reply (closing_warning _) = Option ℕ
Reply worker_issues = List Text
Reply archives_list = List BackupArchive
Reply checks_checking = Option Text
Reply restore_exit_code = Option ℕ
Reply container_status = ContainerState
Reply profiles_list = List BackupProfile
Reply restore_worker_running = Bool
Reply safety_trigger = BackupResult
Reply safety_exit_code = Option ℕ
Reply restore_worker_issues = List Text
Reply (maker_running _) = Bool
Reply (archive_path _) = Option Text
Reply (archive_delete _) = Bool
Reply (archive_validate _) = ArchiveCheck
Reply (check_status _) = Option ArchiveCheck
Reply (profile_get _) = Option BackupProfile
Reply (order _) = Unit

-- app/domain/errors.py; `fault` is any other exception.
pub data Kind : Type 0 where
  permission_denied server_unavailable invalid_player_name invalid_duration : Kind
  invalid_op_level op_levels_unavailable maintenance_unavailable fault : Kind
  backup_archive_not_found backup_unavailable restore_unavailable : Kind

pub record Error : Type 0 where
  pub kind : Kind
  -- `str(exc)`
  pub message : Text

pub data Out (A : Type 0) : Type 0 where
  ok : A → Out A
  raised : Error → Out A

pub Out-cases : {A : Type 0} (o : Out A) → ((a : A) × (o ≡ ok a)) ⊎ ((e : Error) × (o ≡ raised e))
Out-cases (ok a) = inl (a, refl)
Out-cases (raised e) = inr (e, refl)

pub record Event : Type 0 where
  pub call : Call
  pub answer : Out (Reply call)

-- `_op_levels_operation`: the user, the permission, the identifier and who asked.
pub record Operation : Type 0 where
  pub user : User
  pub permission : Permission
  pub operation_id : Text
  pub requested_by : Text

-- What the service keeps of backups and restorations, with `InMemoryPendingRestore`, which only it
-- uses; the dicts are by the kind of a backup, a profile's identifier or « safety ».
pub record Backups : Type 0 where
  pub pending : Option PendingRestore
  pub operation : Option RestoreOperation
  pub started_at : Dict Text ℕ
  pub operation_ids : Dict Text Text
  pub progress_max : Dict Text ℕ
  pub outcome : Option BackupOutcome
  -- `_safety_validation_filename`
  pub validating : Option Text

pub record State : Type 0 where
  -- newest first
  pub trace : List Event
  pub operation : Option Operation
  -- `_deferred_ops_announced`
  pub announced : List Text
  pub backups : Backups

-- What is wired into the service, how its ports answer, and the standard library's texts of a
-- time and of a quoted text, its decimal digits and its calendar.
pub record Env : Type 0 where
  pub container_name : Text
  pub has_levels : Bool
  pub has_apply : Bool
  pub has_doorman : Bool
  pub has_recurring : Bool
  pub has_closing : Bool
  pub has_integrity : Bool
  pub has_pending_restore : Bool
  pub has_restore : Bool
  pub has_validator : Bool
  pub has_checks : Bool
  pub has_profiles : Bool
  pub has_profile_backup : Bool
  pub answers : List Event → (c : Call) → Out (Reply c)
  pub isoformat : ℕ → Text
  pub is_decimal : ℕ → Bool
  pub repr : Text → Text
  -- the year and the month of a time
  pub year_month : ℕ → ℕ × ℕ

abbrev pub Action : Type 0 → Type 0
Action A = State → Out A × State

unfoldable pub pure : {A : Type 0} → A → Action A
pure a s = (ok a, s)

unfoldable pub raise : {A : Type 0} → Kind → Text → Action A
raise k m s = (raised (record { kind = k; message = m }), s)

unfoldable pub reraise : {A : Type 0} → Error → Action A
reraise e s = (raised e, s)

abbrev pub continue : {A B : Type 0} → (A → Action B) → Out A × State → Out B × State
continue f (ok a, s) = f a s
continue f (raised e, s) = (raised e, s)

infixr 10 ◌>>=◌ ◌>>◌
unfoldable pub ◌>>=◌ : {A B : Type 0} → Action A → (A → Action B) → Action B
◌>>=◌ m f s = continue f (m s)

abbrev pub ◌>>◌ : {A B : Type 0} → Action A → Action B → Action B
m >> n = m >>= λ _. n

abbrev pub recover_from :
    {A B : Type 0} → (A → Action B) → (Error → Action B) → Out A × State → Out B × State
recover_from after handler (ok a, s) = after a s
recover_from after handler (raised e, s) = handler e s

-- `try: m except Exception as exc: handler` and then what follows.
unfoldable pub attempt : {A B : Type 0} → Action A → (Error → Action B) → (A → Action B) → Action B
attempt m handler after s = recover_from after handler (m s)

-- `try: m except Exception: pass`
unfoldable pub best_effort : {A : Type 0} → Action A → Action Unit
best_effort m = attempt m (λ _. pure tt) (λ _. pure tt)

unfoldable pub discard : {A : Type 0} → Action A → Action Unit
discard m = m >>= λ _. pure tt

-- The two cases of a value that may be `None`.
unfoldable pub match_option : {A B : Type 0} → Option B → A → (B → A) → A
match_option none a f = a
match_option (some b) a f = f b

unfoldable pub get_state : Action State
get_state s = (ok s, s)

unfoldable pub set_operation : Option Operation → Action Unit
set_operation o s = (ok tt, record s { operation = o })

unfoldable pub get_backups : Action Backups
get_backups s = (ok s.backups, s)

unfoldable pub update_backups : (Backups → Backups) → Action Unit
update_backups f s = (ok tt, record s { backups = f s.backups })

unfoldable pub set_announced : List Text → Action Unit
set_announced l s = (ok tt, record s { announced = l })

-- A call of a port: it is in the trace with its answer, whether it returns or raises.
unfoldable pub port : ⦃env : Env⦄ → (c : Call) → Action (Reply c)
port ⦃env⦄ c s =
    let answer = env.answers s.trace c in
    (answer, record s { trace = (record { call = c; answer = answer }) ∷ s.trace })

unfoldable pub tell : ⦃env : Env⦄ → Order → Action Unit
tell o = port (order o)
