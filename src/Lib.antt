-- ===== src/Lib.antt =====
-- The library of LXMax, an external for Max that sends and receives DMX over Art-Net, sACN and
-- Enttec serial interfaces.
--
-- A service keeps a table of universe configurations, the network adapters and the serial ports. A
-- configuration says of one universe its type, protocol, mode, interface and numbers; clients write
-- its attributes through the SDK, and each setter corrects the others that depend on it. The modelled
-- code stands in source/lxmax/liblxmax, in src and include, and code elsewhere is named by its path:
--
--   Max        what the code takes from the Max SDK, from `inet_ntop` and `inet_pton`, and from the
--              platform, as records of operations with their documented laws
--   Symbols    src/lx_common.c: the symbols that are compared
--   Text       runs of digits and fixed texts, for the regular expressions
--   Dmx        src/lx_dmx.c: Dmx.Digits the C library's `%0*d` and `strtol`; Dmx.Artnet the text form
--              of a universe (`lx_dmx_universe_to_artnet_format`, `..._from_artnet_format`);
--              Dmx.Multicast the sACN addresses
--   Net        src/lx_net.c: Net.Broadcast `lx_ip_address_to_directed_broadcast`; Net.Adapter menus,
--              printing and search of adapters
--   Serial     src/lx_serial.c: menus, printing and search of ports
--   Universe   src/lx_universe_config.c: Universe.Kinds types, protocols and their menus;
--              Universe.Config the object, `lx_universe_config_new`, `..._clone`,
--              `..._find_interface`; Universe.Attributes the setters and the attribute table;
--              Universe.Getters the getters; Universe.Increment `..._increment`; Universe.Invariant and
--              Universe.Laws what is shown of them
--   Label      src/lx_helpers.cpp: `lx_helpers_symbol_increment`
--   Service    src/lx_service.c: the table of universes and the quick patch; Service.Announced its
--              notifications, Service.Linked what it is attached to
--   Remote     source/lxmax/lx.config/lx.config.c: the messages of the object that edits the
--              universes; Remote.Checks the tests of its quick patch, Remote.Edits and Remote.Reach
--              the table after messages, Remote.Linked what they tell the service, Remote.Replies the
--              menus that it sends, Remote.Attributes its attributes
--   Wire       source/lxmax/lxmax/internals/packets: Wire.Bytes endian_ints.hpp; Wire.Artnet
--              dmx_packet_artnet.hpp; Wire.Sacn dmx_packet_sacn.hpp, its layers in Wire.Sacn.Layers
--              and Wire.Sacn.Framing
--   Buffer     source/lxmax/lxmax/internals/dmx_buffer.cpp: the double buffer of channel values
--   Io         source/lxmax/lxmax/internals/dmx_io_service.cpp, dmx_io_protocol.cpp and protocols: the
--              service that owns the buffers; Io.Active and Io.Protocols what it collects
--   Settings   source/lxmax/lxmax/lx.service.cpp: the settings of the service object and its
--              preferences; Settings.Interface and Settings.Addresses its setters,
--              Settings.Dictionary the dictionary that is written, Settings.Steps what happens to the
--              object while it runs, Settings.Covered and Settings.Saving when the dictionary is
--              written, Settings.Loading reading it and the creation of the object, Settings.Startup
--              what then holds,
--              Settings.Values and Settings.Frame the attributes by name,
--              Settings.Writes, Settings.Stored, Settings.Kept, Settings.Reordered and
--              Settings.Restored a configuration that is saved and read
--   Sorted     src/lx_helpers.cpp: a hash table in the order of an attribute,
--              `lx_helpers_hashtab_get_next` and its companions
--   Ui         source/lxmax/lx.config.ui/lx.config.ui.c: Ui.Rows the rows of the table and what edits
--              them, Ui.Columns its columns, Ui.Cells and Ui.WriteBack what the cells show
--   Clients    src/lx_service.c, source/lxmax/lx.dmx.read and lx.dmx.write: objects that subscribe
--   Udp        source/lxmax/lxmax/internals/udp_socket_service.cpp: a socket that receives
--   Enumerate  src/lx_net_macos.c, src/lx_net_win.c, src/lx_serial_macos.cpp, src/lx_serial_win.c: the
--              tables of adapters (Enumerate.Adapters) and of ports on macOS (Enumerate.Registry) and
--              Windows (Enumerate.Devices), as loops that fill a table (Enumerate.Filled)
--   Common     lists, options, numbers and bit operations; Tests runs and instances
--
-- How the state is modelled. A function that changes an object is a function from the old object to
-- the new one, and an output pointer is a part of the result. A symbol is its text, since `gensym`
-- interns. `long` and `t_atom_long` have 64 bits; sums of them wrap around. Pointers to adapters
-- and ports are the adapter or port, which nothing changes after the enumeration. The service that
-- a configuration points to is an argument. A hash table is the keys that it lists and what a
-- lookup finds. What the service tells the SDK is a list of events. An object that the SDK cannot
-- allocate is not modelled.
--
-- The preferences are the dictionary that is written. Whether `dictionary_write` succeeds is up to
-- the system. What `dictionary_read` makes of a file, and which writes `attr_dictionary_process`
-- makes of a dictionary, are parameters; Settings.Restored takes it that it writes the attributes that
-- the dictionary has entries for, in any order. The SDK notifies a write to an attribute with
-- `attr_modified`; every other notification is one that lx_service.c sends. A configuration's go to the
-- service while it is attached to it. A double is its bit
-- pattern, and how the SDK clips one is a parameter.
--
-- Bytes. A packet is a record of its members, and a `memcpy` to or from a packed struct is a function
-- between that record and a list of bytes. A buffer that is written is the list of its bytes. In Buffer
-- and Io an access outside of a vector, which C++ leaves undefined, is `none`.
--
-- Regular expressions are functions on texts, one for each expression of the sources. A run of bytes
-- is taken whole where what follows it cannot begin with such a byte. A greedy `.*` tries the longest
-- text first, and `.` matches no line end.
--
-- The way up the registry of macOS ends, since the registry is a tree: it is recursion on the proof
-- that this holds, without fuel.
--
-- Fuel. `decimal` divides by ten with fuel n + 1 for a number n, and n has at most n + 1 digits. The
-- list of addresses in an adapter's symbol is read with fuel one more than its length, and each round
-- takes a byte at least.
--
-- Not modelled: what lx.config.ui draws; in the service object its allocation, its release and its
-- clock; threads, locks, sending and multicast groups of sockets, which are calls of libraries; outlets
-- and the assistance of the objects.
pub mod Common
pub mod Max
pub mod Symbols
pub mod Text
pub mod Dmx
pub mod Net
pub mod Serial
pub mod Label
pub mod Universe
pub mod Service
pub mod Remote
pub mod Wire
pub mod Buffer
pub mod Io
pub mod Settings
pub mod Sorted
pub mod Ui
pub mod Enumerate
pub mod Clients
pub mod Udp
pub mod Tests
