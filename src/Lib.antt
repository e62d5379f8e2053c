-- ===== src/Lib.antt =====
-- The API server extension for CustomResourceDefinitions (CRDs).
--
-- Parts of the program and how they interact. A CRD declares a kind of object by a structural
-- schema, which must have a schema for every place that its validations mention. A CRD is prepared by
-- the registry when it is written, in an internal version of its type. The request handler decodes
-- an object, converts it between the versions of its CRD and runs the schema's algorithms on it:
-- pruning drops the fields that the schema does not have, defaulting fills in those that are
-- missing, and the list types check that sets and maps have no duplicates. The controllers keep the
-- status of the CRD itself: the naming controller gives it names that no other CRD of its group has,
-- the establishing controller lets it be served, the approval controller judges its annotation, and
-- the finalizer deletes its instances before the CRD goes. They share nothing but the stored CRD,
-- which each of them reads from an informer and writes with UpdateStatus.
--
-- Files.
-- Prelude: library names, tests on numbers, lists, and what is used of Go's standard library.
-- Schema/Json: interface{} values as unstructured objects hold them. A Go map is a list of members
--   in the order of one iteration, and a float64 is its bit pattern.
-- Schema/Structural, Schema/Options: the types of pkg/apiserver/schema/structural.go, and
--   UnknownFieldPathOptions of options.go. A pointer to a schema is a `Ref`.
-- Schema/Pruning: PruneWithOptions, Prune, prune and skipPrune of pruning/algorithm.go. The object
--   that Go mutates and the options are passed and returned. Spec holds the pure functions that the
--   traversal is compared with; Tracking and Untracked compare it, Contract and Fields conclude.
-- Schema/Defaulting: Default and PruneNonNullableNullsWithoutDefaults of defaulting/algorithm.go
--   and prunenulls.go. Fields and Nulls say what becomes of each field.
-- Schema/Visitor: visitor.go and skeleton.go. Stripped compares the visitor, which writes a property
--   back to its map only if it has changed, with a callback at every node.
-- Schema/ListType: listtype/validation.go. Keys has validateListSet with its two maps; Unique and
--   Distinct compare it with a description that has none.
-- Schema/Completeness: complete.go. Mentioned has the places that a validation mentions.
-- Schema/Unfolding: unfold.go, with the patterns of validation.go that it looks for.
-- Schema/Validation: validation.go. The parent has the value validations, Checks and Invariants the
--   skeleton and ValidateStructural, Node and Structural what a schema without faults is.
-- Crd, Crd/Helpers: the types of pkg/apis/apiextensions/v1/types.go, and pkg/apihelpers/helpers.go.
--   Conditions, Lookups and Truth have the lemmas.
-- Crd/Defaults: pkg/apis/apiextensions/v1/defaults.go, and the function of zz_generated.defaults.go
--   that calls it.
-- Controller/Client: what a run of a sync reads and writes.
-- Controller/Naming: calculateNamesAndConditions of pkg/controller/status/naming_controller.go, and
--   its sync in Naming/Sync. Reach has the stored CRDs as a state machine.
-- Controller/Establishing, Approval, Finalizing: the syncs of pkg/controller/establish, apiapproval
--   and finalizer, and the finalizer's event handlers.
-- Controller/Lasting: the four controllers together.
-- Conversion: the data of pkg/apiserver/conversion. Nop is nop_converter.go; Review, Metadata and
--   Webhook are webhook_converter.go: the request and its answer, restoreObjectMeta with
--   validateConvertedObject, and Convert. Converter is crConverter of converter.go, Converter/Factory
--   its NewConverter. A conversion returns the argument as it is afterwards, since nopConverter
--   changes it in place, and the answer. An error is a value that has what its text tells; an index
--   out of range, a nil pointer and a failed type assertion are the error `panics`.
-- Internal: the internal types of pkg/apis/apiextensions/types.go. Hoisting is the conversion of a
--   spec in v1/conversion.go, with the generated functions that it calls; Document that of a schema,
--   which is a JSON document on both sides; Strategy that of the conversion strategy; Helpers what
--   helpers.go finds for a version.
-- Registry: the strategies of pkg/registry/customresourcedefinition/strategy.go, by which the API
--   server prepares a CRD for storage. OldSelf is the field optionalOldSelf, with SchemaHas of
--   pkg/apis/apiextensions/validation/validation.go. History is a CRD through the writes of its life.
--   Resource has the strategies of custom resources in pkg/registry/customresource/strategy.go and
--   status_strategy.go.
-- The modules named Tests, Examples and Samples have sample inputs and runs.
--
-- State. A sync is a function of the answers of the lister, of the API client and of the caches, and
-- returns the objects that it sends, the keys that it queues and its outcome. The approval
-- controller's map of annotations is an argument and a result. All recursion is structural, on the
-- object, the schema or a list, so no function has a bound or fuel; strconv.Itoa runs on the number
-- itself, which is more than its digits.
--
-- Parameters. The accessors of unstructured objects and the validation of labels are the record
-- Machinery; Documented says which fields the accessors read. The web call of a conversion, its
-- client and UID, the typed scheme and GroupVersioner are arguments. Peer is what the conversion of a
-- spec compares by, Semantic.DeepEqual at each type; Sound says that values that are found equal are,
-- up to nil and empty slices. Accessors has the metadata accessors that the strategies call.
-- json.Marshal, url.ParseRequestURI, ValidateCABundle, regexp.Compile, strings.ToLower, the texts of errors, the polling and the storage
-- client are arguments. The hypotheses about them are Sets and Documented of the accessors,
-- KeepsConditions (the server stores the conditions that it is sent) and PollSound (the polling ends
-- without an error only after its condition held), and that reflect.DeepEqual finds an object equal to itself. About the rest of the cluster, Step in
-- Controller/Naming/Reach assumes Known: when the naming controller's write is stored, its lister or its
-- mutation cache had the accepted names of every other CRD that has any (a TODO in
-- naming_controller.go allows for conflicts otherwise), and nobody else writes accepted names or changes a group.
-- Controller/Lasting has the writes of the four controllers and no others. Registry/History has every
-- write of a CRD; a status update that changes the stored versions starts their list anew.
--
-- Not modelled: nil and empty slices are one value, and so are nil and empty maps, where Go's DeepEqual
-- (in validation.go also reflect.DeepEqual of the properties) and Unfold tell them apart, except for
-- the columns, the selectable fields and the review versions of a CRD (NewStructural makes no empty map
-- of properties); the lister's List, which reads an index in memory, does not fail; in strconv.Quote a character above 127 is printable; a
-- field path is a list of segments and not its text; the work queues and goroutines, logging and
-- metrics; NewStructural and the conversion of a v1beta1 schema, and the object metadata in schemas; the
-- HTTP handlers, discovery, OpenAPI publishing, CEL, the value validation by kube-openapi, the storage,
-- the validation of CRDs and of custom resources, and all other generated code.
pub mod Prelude
pub mod Schema
pub mod Crd
pub mod Controller
pub mod Conversion
pub mod Internal
pub mod Registry
