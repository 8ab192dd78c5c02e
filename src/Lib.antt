-- ===== src/Lib.antt =====
-- Verification of PolarDB-Stack-Common, the part of PolarDB Stack that the database operators share:
-- it allocates ports and ids for clusters, computes engine parameters, and drives the engine's
-- instances through pods and a manager in them.
--
-- Ports: the port allocation of business/adapter.
--   Ports/PortRange   port_range.go (PortRange, PortRanges; Set, Contains, String, ParsePortRange)
--   Ports/GoSet       go_set.go (the set of used ports)
--   Ports/Cluster     what the API server and netstat on the nodes answer, as a record of values
--   Ports/Usage       getAllUsedPort, getUsedTcpPortByConfigmap and getUsedTcpPort of port_generator.go
--   Ports/Generator   getNextScopePort, GetNextClusterExternalPort and CheckPortUsed of the same file
-- Params: the engine parameters.
--   Params/Template   business/domain/engine_params_template.go
--   Params/Item       business/domain/engine_param.go and the ignored names of define/constant.go
--   Params/Quote      getRunningParamQuotaValue of business/domain/db_cluster_base.go
--   Params/Effective  GetEffectiveParams of db_cluster_base.go; Restarts has what a restart depends on
--   Params/UserParams GetEffectiveUserParams of db_cluster_base.go, and updateUserParams of
--                     business/adapter/engine_params_repository.go
--   Params/Repository createParamsConfigMap and getParamsConfigMapValues of the same file
--   Params/Slice      utils/slice.go and MapMergeString of utils/util.go
-- Engine: an instance of the engine.
--   Engine/Wait       utils/waitutil/wait.go
--   Engine/Retry      utils/retryutil/retry_util.go
--   Engine/Calls      the interfaces that db_ins.go calls, and the log of the calls
--   Engine/Health     the polling of health and install progress of business/domain/db_ins.go
--   Engine/Ins        the operations of DbIns
--   Engine/Interrupt  define/interrupt_error.go
--   Engine/Ids        business/adapter/id_generator.go
-- Domain: the cluster.
--   Domain/Classes    business/domain/engine_class.go
--   Domain/Versions   business/domain/minor_version.go
--   Domain/Base       InitClass, InitVersion, InitEngineParams, ModifyClassParams, InitAccount,
--                     DisableHA, EnableHA and FlushParams of business/domain/db_cluster_base.go
--   Domain/Storage    business/domain/db_cluster_shared_storage_base.go
-- Remote: the services that the library calls over HTTP, and the nodes' addresses.
--   Remote/Http       doActionCommon of business/adapter/storage_manager.go and
--                     cluster_manager_client.go on the replies of the HTTP client
--   Remote/Polling    PollImmediateWithContext and PollInfinite of utils/waitutil/wait.go over a trace
--   Remote/ClientIp   GetNodeClientIPList, GetClientIP and GetHostIP of utils/k8sutil/k8sutil.go
--   Remote/Storage    business/adapter/storage_manager.go; Start has the look-up of the service's address
--   Remote/ClusterManager   business/adapter/cluster_manager_client.go: the actions; Switchover has
--                     the status, its wait and the switch, Pods the manager's pods and deployment
-- Manager: business/adapter/manager_client.go.
--   Manager/Exec      ExecCmdInPodBase and ExecCmdInPod, with the environments of the commands and the
--                     container's answers as an argument
--   Manager/Client    the commands; Manager/Progress reads the progress of an installation
-- Config: utils/k8sutil/controller_config.go, the configuration and how long it is kept.
-- Placement: where a pod may run, and its deletion.
--   Placement/Nodes   the node checks of business/adapter/pod_manager_base.go
--   Placement/Affinity   BuildPodNodeAffinity of the same file; Placement/Selected says which nodes it
--                     selects, with Kubernetes' reading of the operators as the laws of a parameter
--   Placement/Deleting   DeletePod and WaitForPodDeleted of utils/k8sutil/k8sutil.go, DeletePod and
--                     IsDeleted of pod_manager_base.go
-- Version: utils/version/polar_version_func.go, the ids from the cgroup file.
-- Common holds what these share: integers over the native numbers with the wrap-around of a 64-bit
-- int, texts as lists of byte codes, Atoi and Itoa, maps as association lists in the order of an
-- iteration, the results of fallible calls, and the steps that leave a trace.
--
-- The parts meet where the code calls across them: a cluster's FlushParams computes the effective
-- parameters from the template, the user's and the running values, and hands them to an instance,
-- whose log shows what the engine was sent; GetEffectiveUserParams gives what updateUserParams
-- writes; a cluster's ReleaseStorage reads the error of the storage manager's Release, whose polls and
-- retries are those of utils; the port generator reads ranges, collects used ports in a set and
-- stores the last port.
--
-- State that the code keeps outside itself is passed explicitly: a config map before and after a
-- call, or the log of the calls made so far, on which the answers of pods, manager, clock and context
-- depend. A mutex makes one call one step. Errors are values; a nil pointer that is dereferenced is an
-- error of its own.
--
-- Loops over slices and maps are structural. The loop of getNextScopePort runs as many rounds as its
-- bounds allow, RetryFunc maxRetries + 1. WaitFor polls without a bound, so it runs on fuel, one unit
-- for each signal, and a run that uses it up has no result; as many units as there are ticks until
-- the timeout of a check has passed are enough, since a check that meets it then ends.
--
-- Not modelled: the Kubernetes client, ssh, JSON and YAML themselves, which are arguments; the
-- construction of pods and of the cluster manager's objects; logging; the environments of the
-- manager's commands, the containers of a pod, the cluster manager's creator and remover, and the
-- queries of business/adapter. In Ports/Cluster a config map always has a data map, to which the code
-- assigns.
pub mod Common
pub mod Ports
pub mod Params
pub mod Engine
pub mod Domain
pub mod Remote
pub mod Config
pub mod Manager
pub mod Placement
pub mod Version
