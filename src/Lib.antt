-- ===== src/Lib.antt =====
-- The Terraform provider for Rundeck: a model of the Go package rundeck/ and its correctness.
--
-- A resource of the provider turns the attributes that Terraform holds for it (the resource data) into
-- a structure, sends the structure to the Rundeck server through an API client, and writes what the
-- server has back into the resource data. The model follows the job resource and the project resource
-- through all of that, and has the operations of the key and ACL policy resources and the
-- configuration of the provider.
--
-- The parts, and the code that they model:
-- - Job/Types: the structures of rundeck/job.go (JobDetail and what it holds).
-- - Job/Schemas: the schema functions of rundeck/resource_job.go, as data.
-- - Job/Decode, with Job/Command, Job/Options, Job/Notifications and Job/Schedule: jobFromResourceData,
--   commandFromResourceData and JobScheduleFromResourceData of rundeck/resource_job.go. A helper here
--   is a block of the source's function, named in the comment above it.
-- - Job/Encode, with the same parts: jobToResourceData, commandToResourceData, readNotification and
--   scheduleToCronSpec of the same file.
-- - Job/Replies and Job/Api: GetJob and importJob of rundeck/job.go.
-- - Job/Lifecycle: CreateJob, UpdateJob, DeleteJob, JobExists and ReadJob.
-- - Project: the schema and the operations of rundeck/resource_project.go. Project/Update makes the
--   properties that UpdateProject sends, Project/Read has the loop of ReadProject that takes the
--   server's properties apart, Project/Operations the five operations. Project/Keys is about the names
--   of properties, Project/Served about reading back what was sent.
-- - Keys: the operations of rundeck/resource_private_key.go and rundeck/resource_public_key.go.
-- - Acl: the operations of rundeck/resource_acl_policy.go.
-- - Provider: the provider's schema, its table of resources and providerConfigure of
--   rundeck/provider.go.
-- - Validation: validateValueFunc of rundeck/util.go.
-- - Xml: Xml/Maps has marshalMapToXML and unmarshalMapFromXML of rundeck/util.go. The rest is of
--   rundeck/job.go: the attributes that hold lists (MarshalXMLAttr and UnmarshalXMLAttr), Xml/Configs
--   for JobPluginConfig and JobLogFilterConfig, Xml/Arguments for JobCommandJobRefArguments.
-- - Common, Go, Sdk and Http: what the parts share. Common has lists of bindings for Go's maps, texts
--   cut at a separator, the replacement of a character and the two orders of a map. Go has the results
--   of functions, which return a value, return an error or panic; actions on a state, which keep what
--   was written before an error; values of type interface{} with their type assertions; and integers,
--   printed and parsed. Sdk has schemas and resource data, Http the replies of the API client.
-- - Tests: runs of the model on concrete inputs, and concrete instances of its parameters.
--
-- How the code is translated. A pointer that may be nil is an Option; following a nil pointer, a type
-- assertion on a value of another type and an index out of range are panics. A Go map is a list of
-- bindings, and a loop that ranges over a map visits them in the order of the list. An index that is
-- parsed from a property's name is bounded as an int of 64 bits; the other numbers are only passed on
-- or count the elements of a list, and are not bounded. Every loop of the provider is a recursion on
-- the list that it visits, and digits are printed by recursion on a proof that the number is
-- accessible, so no fuel is needed.
--
-- The parameters. The vendored libraries are not modelled. What d.Get returns after d.Set is a reader
-- of values (Sdk/Reader) that keeps values of the declared type, gives the zero value for an absent
-- one, and reads a nested block attribute by attribute; resource data (Sdk/ResourceData) return what
-- was set, as the reader gives it, and change nothing else, and d.Set accepts nil and values of an
-- attribute's type (Sdk/Settable) where a caller drops its error. The encoder of XML takes tokens, and
-- the decoder is the list of what its calls return; the calls that write or read a whole element of a
-- structure are parameters too. The API client is a record of calls on the state that it shares with
-- the resource data, together with the codec for whole documents. The parser of URLs is a parameter,
-- although it is of the standard library: the code hands over a text and takes a text back.
--
-- Not modelled: the hash that the state keeps of a private key, the descriptions in schemas, the XML
-- element names of structures, the reading of environment variables, main.go and the vendored code.
pub mod Common
pub mod Go
pub mod Sdk
pub mod Xml
pub mod Http
pub mod Job
pub mod Keys
pub mod Acl
pub mod Project
pub mod Validation
pub mod Provider
mod Tests
