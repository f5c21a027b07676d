-- ===== src/Lib.antt =====
-- Haisos runs agents, scripts and shell commands as processes over virtual filesystems. This
-- library models the parts of it that the rest stands on: the paths of a virtual filesystem, the
-- filesystem that lives in memory, the table of mounts, the filesystems that hand calls on, the
-- open files of a process, the environment a process is given, the manifests that an OS is started
-- from, the decoding of UTF-8, the pipes between processes, and the patterns, the variables, the
-- numbers, the quotes, the arithmetic, the command line, the unbounded pipes and the test and set
-- builtins of the shell hsh.
--
-- Path and the files below it: src/components/Filesystem/VirtualPath.h. A path is a list of bytes,
-- and a normalized path that of its names. end_segment, next_char and split_loop are the lambda and
-- the loop of AppendVirtualPathSegments; normalize, relative_to_base, parent_of and last_segment
-- are NormalizeVirtualPath, RelativeToBase, VirtualParentOf and VirtualLastSegment. The separator
-- is that of a build that is not for Windows. Segments/Following has the steps that the components
-- of a path take.
--
-- Interfaces: what interfaces/IFileDescriptor.h and interfaces/IFileSystemService.h say of results,
-- times and directory entries, and two helpers of src/components/Filesystem/FilesystemUtils.h. A
-- time counts from the epoch, so it is not negative.
--
-- Memory and the files below it: src/components/Filesystem/InMemoryFileSystem.cpp. m_nodes is a
-- Dict of Common/Dict, kept by key; a std::unordered_map lists its entries in no set order. A call
-- takes the nodes and gives its result with the nodes it leaves. The readings of the clock are an
-- argument, and the flags of an open are the bits that the code tests. Memory uses Path for every
-- path it is given, as the code does. Memory/Keys, Tree and Removal hold the lemmas on what a call
-- may change, Calls the calls in any order, and Content what is written and read.
--
-- Mounts and the files below it: src/components/Filesystem/MountPoints.cpp. m_mounts is a list of
-- entries, over any type of filesystems; mount, unmount and resolve are Mount, Unmount and Resolve.
-- Mounts/Table has the order the table is kept in, Mounts/Innermost what Resolve finds by it.
--
-- Routing and the files below it: src/components/Filesystem/SubFileSystem.cpp,
-- ReadOnlyFileSystem.cpp, ComposedFileSystem.cpp and MountableFileSystem.cpp. A FileSystem is the
-- calls of IFileSystem over one state, that of everything which a call may change; Memory gives
-- one. Routing/Own has the builtin commands, and Routing/Mountable the calls of MountableFileSystem
-- over them and the Mounts of this library; it takes the Local part of its subclass as a parameter.
-- The two forms of OpenFile are one, with a mode or without.
--
-- Process and the files below it: src/components/HaisosOS/ProcessFileIO.cpp. m_descriptors is a
-- list of slots, over any type of descriptors; the working directory and the root filesystem of the
-- OS are arguments, the latter a FileSystem of Routing or none. Process/Descriptors has what a call
-- does to the slots, Process/Reach the calls in any order.
--
-- Environment and the file below it: src/components/Environment/Environment.cpp. The three maps are
-- each a Dict, and a function per method takes the environment and gives the one after it.
--
-- HaisosFile and the files below it: src/haisos/HaisosFileParser.cpp. The stream is the list of the
-- lines that are left of it, and a result an error's message or a value. Text, Tokens and Content
-- have the helpers, Settings and Files the directives, and Parse the loop over the lines. Every
-- round of the loop takes a line, so fuel above their number is enough; the loops over bytes need
-- none.
--
-- Unicode and the file below it: src/components/Unicode/Unicode.cpp, less DisplayWidth. The masks
-- and shifts of DecodeUtf8 are written as remainders and products; the loop takes the bytes that
-- the first one announces.
--
-- Pipe and the files below it: src/components/PipeService/Pipe.cpp and PipeService.cpp. The state
-- is the members of PipeBuffer. A call of Read or Write is modelled from taking the mutex to
-- letting it go: it returns, or waits with what it has written so far, and is then called again.
-- Threads interleave between these steps, which Pipe/Traffic makes a relation. A hold of Write's
-- loop has two rounds at most, since the first that copies either ends the write or fills the pipe;
-- that is its fuel. Pipe/Channel is the queue that the ring stands for.
--
-- Hsh/Bracket and Hsh/Pattern, with the files below it:
-- src/components/BuiltinCommands/commands/hsh/HshPattern.cpp. A position in the pattern is a
-- number, as there. The loop of MatchPattern runs on fuel: each byte of the text can bring it back
-- to a star once, and between two returns it goes forward in the pattern, so (length of the text +
-- 1) times (length of the pattern + 1) rounds are enough. The other loops go forward in each round,
-- so the length of the pattern is enough. Character classes are those of the C locale.
-- Hsh/Pattern/Matches says what a pattern matches, without the loop.
--
-- Hsh/Variables and the files below it:
-- src/components/BuiltinCommands/commands/hsh/HshVariables.cpp, and the test of a name of
-- HshWord.cpp. m_variables is a Dict of entries; entry_at is the operator [] that the code changes
-- an entry through. ImportFrom reads the Environment of this library.
--
-- Hsh/Number and the file below it: src/components/BuiltinCommands/commands/hsh/HshNumber.cpp. A
-- position in the text is the rest of the text, and an intmax_t has 64 bits; Hsh/Number/Decimal has
-- what digits write.
--
-- Hsh/Quote and the file below it: src/components/BuiltinCommands/commands/hsh/HshQuote.cpp. The
-- loop takes a quote in every round but the last, so one round more than the bytes of the value is
-- enough. Hsh/Quote/Read reads the quotes as the shell does.
--
-- Hsh/Arithmetic and the files below it:
-- src/components/BuiltinCommands/commands/hsh/HshArithmetic.cpp. Word has U, S and the operations
-- of an intmax_t of 64 bits, Token Tokenize, and Parser the class ArithmeticParser over any store
-- that has a Get and a Set; of_shell in Examples is that of Hsh/Variables. Numerals has strtoimax
-- and std::to_string as the C library documents them. m_evaluating is an argument, and a throw a
-- result, without the store that it leaves. A call of ParseAssign within another comes behind a
-- token that was taken, as does a round of each loop, so fuel above the number of tokens is enough.
-- A round of Tokenize takes a byte or more, which Consumes shows, so fuel above the number of bytes
-- is enough for it. The functions that differ only in their operators share chain_loop and
-- logical_loop.
--
-- Hsh/Test and the files below it: src/components/BuiltinCommands/commands/hsh/HshBuiltinTest.cpp,
-- over the reader of numbers of Hsh/Number. m_pos is the list of the operands from it to m_end, and
-- m_currentOp comes with the token that Lex returned last. Table has kTestOps and Lex, Primaries
-- UnaryTest and BinaryTest, Grammar the expressions, and Command Run and BuiltinTest. A file, a
-- descriptor or a path is asked of a TestHost, which stands for the calls of interfaces/IFileIO.h.
-- OrExpression calls itself behind a parenthesis only, and every other round takes a word, so fuel
-- above the number of operands is enough. Of two operands that are no numbers the first is
-- reported; C++ leaves that order open.
--
-- Hsh/UnboundedPipe and the files below it:
-- src/components/BuiltinCommands/commands/hsh/HshUnboundedPipe.cpp, each function what a call does
-- under the mutex, and the loop of HshShell.cpp that reads the output of a command substitution.
-- Queue has what such a pipe promises. The loop takes a byte or more in every round, so fuel above
-- the number of bytes in the pipe is enough.
--
-- Hsh/Options and Hsh/Invocation: src/components/BuiltinCommands/commands/hsh/HshInvocation.cpp,
-- the table of options and the command line of hsh. Hsh/SetBuiltin: HshBuiltinSet.cpp beside it,
-- over the options, the positional parameters and the texts written. A pointer to a member of
-- ShellOptions is an OptionField. Every round of the two loops over arguments takes an argument, so
-- fuel above their number is enough. Hsh/SetBuiltin/Reading has how set reads its arguments, apart
-- from its loops.
--
-- Common holds what they share: Boolean tests on numbers, lists measured by native numbers, texts
-- as lists of bytes, and std::map as a list of entries.
--
-- Not modelled: threads as such, destructors and reference counts, logging, and memory exhaustion.
-- Sizes are natural numbers; where the code tests for overflow, in WriteAt and Atomax10, the bound
-- of 64 bits is written out. The filesystems of the host, the rest of the shell, the agents and the
-- network are not modelled.
pub mod Common
pub mod Interfaces
pub mod Path
pub mod Memory
pub mod Mounts
pub mod Routing
pub mod Process
pub mod Environment
pub mod HaisosFile
pub mod Unicode
pub mod Pipe
pub mod Hsh
