-- ===== src/Lib.antt =====
-- HYDRA-UMC-SERVER, verified: the parts of the server that decide what reaches a robot and who may send
-- it. The server is one Node process: phones, panels and other services send it requests, it keeps the
-- state in memory and in JSON files, and it acts on the robots. Each part here is a class or a module of
-- src/ whose state is a record, whose methods are functions from the state to the new state and the
-- answer, and whose clock, random bytes and calls to other services are arguments. The code has no
-- parallel threads: a method that does not wait is one step, and a method that waits for another service
-- gets all the answers of that run as an argument (`World`, `Answers`).
--
-- Framing, src/ble/framing.ts: a message is cut into Bluetooth frames (`split_message`), and a
--   `Reassembler` joins them again (`push`, `reset`). Bytes are numbers below 256. The loop of
--   splitMessage takes a slice of at least one byte each round, so it runs on fuel, one more than the
--   length of the message; `out_of_fuel` is an outcome of its own.
-- Jog, src/jogSequence.ts: the class JogSequence, which refuses motion commands that come too late
--   (`accept`, `note_stop`, `forget_old`, `size`). Its Map is an association list in order of insertion.
-- StopRelay, src/jobStopRelay.ts: the class JobStopRelay, which fetches the stops that the job dispatcher
--   asks for, stops the robots and acknowledges (`pass`, `pass_over`, `handle`, `next_delay_seconds`).
--   StopRelay/HandOver adds the line of src/server.ts that hands each acknowledgement to Takeover.
-- Takeover, src/orchestratorTakeover.ts: the class OrchestratorTakeover, which sends the missions and the
--   proofs of stopped robots to a standby (`record_proof`, `tick`, `deliver`, `evidence_for`). The loop
--   of recordProof runs on fuel, the number of proofs, each round of it deletes one.
-- Presence, src/operatorPresence.ts: the class OperatorPresence, the dead-man that slows, pauses or stops
--   the robots of an operator whose heartbeats stop. Presence holds what happens to a robot (`hold`),
--   Presence/Operators the heartbeats (`beat`, `evaluate`, `lose`, `enforce`), Presence/Ramp the check of
--   each second (`tick`) and the return of the speeds (`ramp`). The robots of all controllers are one
--   list, as the loops read them; the speeds are whole numbers and slowFactor is in thousandths, where
--   the source computes in floating point. stoppedPlaybackState is that of src/routes/commandRoutes.ts
--   and isReservationActive that of src/playback.ts.
-- Users, src/users.ts: the accounts (`create_user`, `update_user`, `delete_user`), over the list that the
--   file holds. Users/Sessions joins it with RefreshTokens.
-- RefreshTokens, src/refresh_tokens.ts: the tokens that renew a session (`issue_refresh_token`,
--   `consume_refresh_token`, the two ways to revoke, `prune_expired_refresh_tokens`), over the list that
--   the file holds, and the accounts of Users. `toLowerCase` is a parameter.
-- DeviceTokens, src/deviceTokens.ts: the class DeviceTokenStore, the tokens that devices sign in with
--   (`issue`, `revoke`, `verify`). The signature is a parameter, the text of a token is taken apart.
-- RobotIds, src/robotIds.ts: robot ids that more than one robot has (`robot_id_conflicts`,
--   `is_robot_id_ambiguous`, `new_robot_id_conflicts`), over the controllers and their robots' ids.
-- Claims, src/claimPolicy.ts: who may command a claimed robot (`claim_conflict`) and the list of the
--   claims (`list_claims`), with the history of the claims of src/playback.ts.
-- Commands, src/routes/commandRoutes.ts: the two handlers through which clients drive the robots. A request
--   is checked (Commands/Admission, with is_robot_id_ambiguous of RobotIds, claim_conflict of Claims,
--   is_armed of JogArming and accept of Jog, in the order of the handler), planned where it is checked as
--   a whole (Commands/Planning), and applied to each robot it reaches (`apply_command` in Commands/Apply,
--   its cases in Commands/Cases and Commands/Switch); `command_robot` of Commands/Handle is the whole
--   handler and `stop_all` of Commands/StopAll the global stop. Robots has the robots of the settings and
--   the patches that clients merge. The numbers of the language are any type with its operations, so that
--   nothing is said of rounding; the limits of a model, the inverse kinematics (calculateJoints of
--   src/kinematics.ts), the comparison of revisions and the patterns of names are parameters.
-- RobotEdit, src/robotEdit.ts: the edits of a robot (`plan_robot_edit`, `clean_points`).
-- TableCommand, src/tableCommand.ts: one move of the table (`plan_table_move`, `apply_table_move`).
-- ModelHome, src/modelHome.ts: the home pose of a model and the verdict on a reset (`resolve_home`); the
--   table of src/data/kinematicData.json is a parameter.
-- Liveness, src/robotLiveness.ts: the last news of each robot (`touch`, `stale_after_from`, `report`).
-- JogArming, src/safetyLimits.ts: the class JogArming (`arm`, `disarm`, `is_armed`, `expires_at`).
-- ClaimRoutes, src/routes/robotRoutes.ts: the handlers that claim and give back a robot (`claim_robot`,
--   `release_robot`), on top of Claims and JogArming.
-- Playback, src/playback.ts: the tick of the timer that moves a robot from one recorded point to the
--   next (`tick`, `go_to`, `after_last`). Coordinates are only copied, so their type is a parameter.
-- Json is the part of JSON values that these modules read, and Prelude has the helpers on lists,
--   association lists, tests and numbers.
--
-- Not modelled: reading of settings from files and the environment, timers that call the methods again,
-- log and audit lines, files and their errors, HTTP itself and the requests' headers. The other modules
-- of src/ are not part of this library yet. Times are whole milliseconds, and a difference of two times
-- stops at 0, where the source would go below it: every use compares it with a limit that is not
-- negative.
pub mod ClaimRoutes
pub mod Claims
pub mod Commands
pub mod DeviceTokens
pub mod Framing
pub mod Jog
pub mod JogArming
pub mod Json
pub mod Liveness
pub mod ModelHome
pub mod Playback
pub mod Prelude
pub mod Presence
pub mod RefreshTokens
pub mod RobotEdit
pub mod RobotIds
pub mod Robots
pub mod StopRelay
pub mod TableCommand
pub mod Takeover
pub mod Users
