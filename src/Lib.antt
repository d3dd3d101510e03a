-- ===== src/Lib.antt =====
-- A model of gardener-extension-networking-calico, the extension of gardener that installs Calico
-- in shoot clusters, and theorems about it.
--
-- The program is a controller. gardener calls its actuator with a `Network` resource and the
-- cluster it belongs to. `Reconcile` decodes the provider config of the resource, completes it with
-- the network of the shoot's nodes, computes the values of the calico chart from it and from the
-- image vector, renders the chart, and writes the result to the seed: a secret, a managed resource
-- that refers to it, the monitoring objects and the status of the resource. `Delete` and `Migrate`
-- take that back, the latter with the objects in the shoot kept.
--
-- Which file models which part:
-- - Calico: pkg/calico/types.go and pkg/calico/predicates.go, the constants.
-- - Images: pkg/imagevector, the image vector that is read at the start and one function per image.
-- - Api.Types, Api.Decode: pkg/apis/calico/v1alpha1/types_network.go with options for pointers, and
--   `CalicoNetworkConfigFromNetworkResource` of pkg/apis/calico/v1alpha1/helper/decode.go.
-- - Store: memories of cells and commands on them, for the code that handles pointers. Store.Copies
--   says what a copy is, Store.Sizes how many cells a command adds, and Store.Casts what becomes of
--   both where a pointer is cast to a type of the same layout.
-- - Api.Memory, Api.DeepCopy: the same types as structs in a memory of cells, and
--   pkg/apis/calico/v1alpha1/zz_generated.deepcopy.go.
-- - Api.Internal: the internal types of pkg/apis/calico/types_network.go, as values and as structs
--   in the same memory, and pkg/apis/calico/zz_generated.deepcopy.go.
-- - Api.Conversion: pkg/apis/calico/v1alpha1/zz_generated.conversion.go, between the two.
-- - Charts.Config, Charts.Generate, Charts.Marshal, Charts.Values, Charts.Render:
--   pkg/charts/utils.go (`calicoConfig`, `generateChartValues` block by block, `toMap`,
--   `ComputeCalicoChartValues`) and `RenderCalicoChart` of pkg/charts/values.go.
--   Charts.Generate.Expected is the specification of `generateChartValues`, field by field.
-- - Charts.Templates, Charts.Templates.Node: what the config map and the container of the node in
--   charts/internal/calico/templates/node read from the values, with as much of text/template as
--   they use, and the keys of values.yaml.
-- - Actuator.Reconcile, Actuator.Monitoring, Actuator.Status, Actuator.Delete: `Reconcile` with its
--   helpers, `applyMonitoringConfig`, `updateProviderStatus`, `Delete`, `Migrate` and `Restore` of
--   pkg/controller. Theorems on several operations are in Actuator.Lifecycle (one after the other),
--   Actuator.Phases (an abstract specification, with a phase for each namespace),
--   Actuator.Isolation and Actuator.Attempts (operations that end well, and however they end),
--   Actuator.Retries (until they end well), and Actuator.Concurrency and Actuator.Pool (at the same
--   time: two operations, and workers as a step relation). Actuator.Reconcile.Given describes what is
--   decoded and detected.
-- - Command.Config, Command.Setup, Command.Options, Command.Run, Command.Main, Command.Wired:
--   pkg/cmd/config.go with pkg/apis/config/types.go and pkg/apis/config/loader/loader.go;
--   pkg/controller/actuator.go, pkg/controller/add.go and pkg/healthcheck/add.go; and app/app.go
--   (the options, the run, the command with its flags) and main.go of
--   cmd/gardener-extension-networking-calico. Command.Wired puts the fields of a started actuator
--   in the place of Actuator.Environment.
-- - Command.Config.Stored, with V1alpha1 and Conversion: the structs and the deep copies of
--   pkg/apis/config/zz_generated.deepcopy.go and pkg/apis/config/v1alpha1/zz_generated.deepcopy.go,
--   and pkg/apis/config/v1alpha1/zz_generated.conversion.go.
-- - Scheme.Calico, Scheme.Config: the registration of types and conversions in register.go,
--   defaults.go, zz_generated.defaults.go, zz_generated.conversion.go and install/install.go of
--   pkg/apis/calico and pkg/apis/config, and (in Scheme.Codecs) the `init` functions that install
--   them and make the decoder and the codec.
-- - Json: values and maps as lists of entries. Json.Maps: Go's maps, which are such lists without
--   their order, a quotient; a chart renderer is given one. Charts.Marshal.Listed and
--   Charts.Values.Listed list the whole maps in the order of the alphabet. Json.Documents,
--   Json.Lexer, Json.Characters: the encoder and the decoder of encoding/json, which `toMap` uses,
--   in three layers: tokens, their characters, and the escapes between quotes. A document is the
--   list of its characters.
-- - Gardener, Actuator.Seed, Actuator.Environment: the fields of gardener's objects that the
--   program reads, the calls that the actuator makes, and what it is given.
-- - Prelude: helpers that the parts share. Tests: runs on concrete inputs.
--
-- How the code is written here. A Go error is `err`, a failed `runtime.Must` is `panic`; both end a
-- function. A string type holds any text, not only its declared constants. A call to the seed is
-- data (Actuator.Seed.Call), with its arguments; the seed is a parameter that carries it out. What
-- is assumed of it is Actuator.Seed.View.IsLawful: what each successful call changes, that deleting
-- a chart of one object that is not found leaves it gone, and what `client.IgnoreNotFound` passes
-- on. gardener's resource manager acts on its own: a view says which objects are to be in the shoot
-- once it has acted, not when that is. Theorems on failures assume more, each where it is named:
-- that a call has its whole effect or none (Actuator.Attempts.IsAtomic), or that a state has
-- finitely many failures left (Actuator.Retries.Recovers). That gardener tries an operation again
-- is not code of this repository; `retried` stands for it. Nor is the queue of its controllers: the
-- steps of Actuator.Pool.Step stand for its workers, any number of them, of which no two have the
-- same item. gardener's image vector, chart renderers, decoder and helpers are parameters with no
-- assumption, and so are the manager, the schemes, the loaders and the flag sets of the command,
-- and sprig's functions for templates; the calls of the manager and of the schemes are data too. A
-- memory is a list of cells; a read through a pointer that points to nothing is a fault. The
-- structs of two versions of a type have one layout, which `unsafe.Pointer` relies on: a cell holds
-- the bits, and can be read at either type. No function needs fuel: all loops are over lists.
--
-- Not modelled: arrays and numbers in JSON documents, which the program's do not have, the bytes of
-- characters, logging and contexts, the vendored libraries, the YAML of the charts and the
-- templates not named above, and the test suites.
pub mod Prelude
pub mod Calico
pub mod Gardener
pub mod Json
pub mod Store
pub mod Api
pub mod Images
pub mod Charts
pub mod Actuator
pub mod Command
pub mod Scheme
mod Tests
