-- ===== src/Lib.antt =====
-- patch-operator: a Kubernetes operator that lets several contributors patch one shared object.
-- A ResourcePatch (namespaced) or ClusterResourcePatch declares the fields that it wants on a
-- target. The admission webhook validates it and asks the API server whether its author may do the
-- writes that it implies; the contributor controller resolves it to targets and registers it with
-- the tracker of each; the tracker renders the contributions and applies them.
--
-- The files, by part of the program (paths from the repository's root):
--   Api, Api/Refs, Api/Status, Api/PatchStatus, Api/Conditions, Api/Identity: api/v1alpha1, the data
--     of the resources, the references between them (`ContributorRefOf`, `SameContributor`), the
--     statuses of a tracker and of a contributor, the conditions (`SetCondition`), and the identity
--     that a contributor was admitted for (`IdentityFromAnnotations`).
--   FieldPath: internal/render/fieldpath.go, `Segment`, `Path.String` (`to_text`) and `Parse`
--     (`parse`), with `strconv.Itoa` and `Atoi` on the ints that a 64-bit build has. The loop of
--     `Parse` runs on fuel, the length of the text: each round takes a byte or more of it.
--   Json: the values that Go decodes JSON into, with the map, slice and `fmt` operations in use.
--     A map is a list of its entries, a number the texts that are printed for it.
--   Access: internal/render/fieldpath.go, `Get`, `Set` (`setIn`, `setInList`), `Delete` and
--     `pruneEmpty`. Writes return the object as the caller sees it afterwards, also on an error.
--   Scope: internal/scope/scope.go, the key of a target, the kind of its tracker, and in
--     Scope/Validate the function `Validate`; an error is its type and field, without the message.
--     Scope/Names has `TrackerName`, with the SHA-256 as a parameter.
--   Webhook: internal/webhook/sar.go, `ChecksFor` and `Authorizer.Authorize`; Webhook/Handler is
--     validator.go, `ContributorValidator.Handle`, and Webhook/Recorder is mutator.go,
--     `PrincipalRecorder.Handle`, with the decoders and encoders as parameters. Webhook/Needs describes
--     the permission that each write needs, next to the checks of the code.
--   Controller: internal/controller/contributor_controller.go, `resolveTargets`,
--     `resolveSelector` and `selectorNamespaces`, with Sync (`syncStatus`), Release
--     (`reconcileDelete`), Reauthorize (`reauthorize`) and Reconcile (`Reconcile`). Controller/Events
--     has the event filters of helpers.go, the maps from events to objects, and `targetKeysFor` of
--     index.go.
--   Registration: internal/controller/contributor_controller.go, `ensureTracker`, and in
--     Registration/Promote `promoteIfNeeded` and `createSuccessor` of promotion.go. The API server is
--     an interface (Registration/Calls): each call of the source is an operation on a state that is
--     left open, any of them may fail, after an error it is not known whether the write was done, and
--     nothing is assumed of what the cache holds. Controllers run one after the other: within a run
--     nobody else writes, so that each `RetryOnConflict` is one attempt; Registration/Reach has the
--     runs as steps. There the copy of a tracker and the successor that the tracker controller reads,
--     through a cache in the source, are as they are stored.
--   Apply: internal/apply/ssa.go and conflict.go, `patch`, `Apply` and `Revert` of the server-side
--     applier, `AllOurs`, and the merge of a contribution onto a base. Apply/Manager is
--     internal/apply/applier.go, the field manager's name, with the SHA-256 as a parameter, and
--     Apply/Client is internal/apply/csa.go, the update of the client-side applier up to the write,
--     with `json.Marshal` and the comparison of two contents as parameters, and in
--     Apply/Client/Applier `Apply`, `create` and `Revert` around it, as the applier that a tracker
--     asks.
--   Render: internal/render/render.go, `Render` with its branches; Render/Leaves has `LeafPaths`,
--     Render/Pointer the JSON pointers and the document that ops are applied to. A loop over the
--     sorted keys of a map puts the keys in order as it goes.
--   Tracker: internal/controller/tracker_controller.go, with Order (`sortContributors` of
--     helpers.go), Records (`listContributors`, `recordFor`), Writes (`patchStatus`, `writeStatus`,
--     `recordProvenance`, against what the API server has stored at each instant), Conflicts
--     (`detectPathConflicts`, `isSupersededOn`), Appliers (what is asked of an applier, `applierFor`),
--     Withdraw (`releaseContributor`, `maybeDeleteTarget`), Pass (`reconcileContributions`; Pass/Step
--     has the body of its loop) and Lifecycle (`Reconcile`, `reconcileEmpty`, `reconcileDelete`, and
--     `finishPromotion` of promotion.go). A pass sees the two appliers through the interface that the
--     source gives them, as operations on a state that is left open. `attempts`, how often a status
--     write is tried, is any number.
--   Promotion: internal/controller/promotion.go, `adoptStatus`.
--   Sort: a stable sort, for `sort.SliceStable`, and what makes its result the only one.
--   Base: helpers on native numbers, lists, byte texts and integers.
--
-- The API server, the RESTMapper and the parsers of apimachinery are parameters: `parse_group`,
-- `resource_for`, `lookup`, `list_objects`, `list_namespaces`, `valid_selector`, `review`,
-- `send`, the lists of contributors, the stored versions of a tracker (`World`), the replies to the
-- calls on it and the records `Outside`, `ApiServer`, `Targets` and `Environment`. Where a theorem
-- relies on what one of them does, it says so as a hypothesis.
--
-- Not modelled: runs of controllers whose calls interleave, the RESTMapper adapters, the wiring of
-- the manager and its watches, client construction, impersonation, informers and generated code.
pub mod Base
pub mod Sort
pub mod Api
pub mod FieldPath
pub mod Json
pub mod Access
pub mod Scope
pub mod Webhook
pub mod Controller
pub mod Apply
pub mod Render
pub mod Tracker
pub mod Promotion
pub mod Registration
