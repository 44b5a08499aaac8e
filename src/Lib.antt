-- ===== src/Lib.antt =====
-- Verification library for the programs of this repository for the Tektronix 4404 under UniFLEX.
--
-- Parts and files.
-- - The terminal emulator of the window manager, tek/wmgr/vtemu.c and vtemu.h, is in Vtemu. State
--   has `VTemu` as the record `Vt`; Region has clearregion and moveregion; Lines has VTreset,
--   VTmovelines, VTclearlines and VTnewline; Args has asciinum and asciinum2; Csi has the switch on
--   the final byte of a control sequence with VTsetstyle, VTfocus and VTblur; Output has VToutput.
--   A C array is a function of the position with a test at each access, and an operation answers
--   `none` where C leaves the access, the shift or the length undefined. A `short` is an integer that
--   each assignment wraps to 16 bits. The bits of `dirtylines` are a function of the line.
-- - The telnet daemon, tek/daemons/telnetd.c, is in Telnet: the option parser on its input buffer
--   (sendopt, parseopt, parseoptdat, parse), and in Telnet/Write the output filter writewithlf.
-- - The network file server, tek/daemons/nfsd.c, is in Nfsd: Message has the writer (add_uint,
--   add_string, ...) and the reader (get_uint, get_string, ...) of RPC messages, Validate has
--   validate and, in Validate/Reply, a caller's reading of its replies, Modes has nfsmode2host, host2nfsmode and host2nfstype as built for the 4404, Mounts has
--   make_fsid and release_filehandle, Pool has add_subpath, encodepath and decodepath, Credentials
--   has get_credentials, Attributes has add_fattr and add_fattr3, Sattr has get_sattr, and
--   Sattr3 get_sattr3 and get_sattrguard3. Programs has portmapperprog, lockprog and mountprog on
--   these, with `stat` as a parameter, and Tftp the transfer of a file to a peer whose answers are
--   given. A message buffer is a function of the position with TRANSFER_SIZE bytes; an access behind it is `none`.
-- - The disk tool, tek/devtools/defrag.c, is in Defrag: Bitmap has setbit, clrbit, countbits,
--   clear_map and the sizes that main computes; Account has set_dup, set_oor, mapblock,
--   mapindirectblock and checkrange on the counters and tables; Follow has mark_in_map with do_sind,
--   do_dind and do_tind; Scan has builds_fdns_map; Space has findcontiguous; Move has the loop of
--   do_defrag over the candidate files. The disk is a function of the block number that may fail. An
--   access out of the map is `none`.
-- - The archiver, tek/utils/tar.c, is in Tar: Tape has writetape, flushtape and readtape over a device
--   whose results are given, and Header has the mode and the permissions of tomodes, getdir and pmode,
--   and checksum.
-- - The windows of the window manager, tek/wmgr/wmgr.c, are in Wmgr/Stack: validwin and WindowTop, in
--   Stack/Slots WindowCreate, WindowDestroy and cleanup_window, and in Stack/Exit the loop of
--   cleanup_and_exit. Stack/Reach has the states that
--   calls of them lead to. A pointer to a window is its index in `allwindows`. Wmgr/Paint has Paint
--   with RectAreasOutside and RectIntersect of tek_graphics.c, the library it is built with off the
--   4404, and Wmgr/Rect the tests of points and rectangles.
-- - The keyboard, tek/wmgr/events.c, is in Wmgr/Events: readkeyboardevents on the words of the event
--   queue, with the key map, the modifier keys and the repetition of the last key.
-- - The DHCP client, tek/utils/dhcp.c, is in Dhcp: the packet of dhcp_output, the options, and the
--   exchange of main with the server.
-- - Base has what the parts share: the Boolean tests, lists over native numbers, signed integers,
--   and the `Option` monad for code that may fault.
--
-- How they interact. The daemons and the emulator are separate programs: the emulator is called by
-- the window manager with what a program wrote to its pseudo terminal, and calls back to draw and to
-- reply. These calls are recorded in the order made (`log` of `Vt`, `sent` of `Machine`). In the window
-- manager Paint walks the list that WindowTop, WindowCreate and WindowDestroy keep. In the disk
-- tool the scan fills the map by following each descriptor, the moves follow the candidates again in
-- the other mode, which lists their blocks and leaves the map, and findcontiguous reads the map.
--
-- Bounds and fuel. Loops over input recur on the input. The loop of writewithlf has fuel for each
-- byte of the buffer, and a round takes one byte at least. The scans of asciinum (4 characters) and
-- asciinum2 (8) are the source's own bounds.
-- The search of findcontiguous has a round for each byte of the map, and a round moves on by one byte
-- at least; countbits has a round for each bit, and each takes one. The loop of readkeyboardevents has
-- a round for each word of the queue.
-- The walks of WindowTop and of Paint have a round for each window, and a list of the windows has no
-- more; the loop of cleanup_and_exit takes one window in each round.
-- The loops of the file server recur on the bytes, the tokens or the places of an array.
--
-- Not modelled. Messages on stderr and on the console, process control, sockets beyond the messages
-- sent, drawing, and the programs of the repository that are mostly input and output.
pub mod Base
pub mod Telnet
pub mod Vtemu
pub mod Nfsd
pub mod Defrag
pub mod Tar
pub mod Wmgr
pub mod Dhcp
